-- ===== src/Tests/Maps.antt =====
-- A patch of two columns and one row on a blank map.
use tachyne_gw_bedrock.Prelude.{
  ℕ, ◌+◌, ◌*◌, ◌≡◌, false, inl, [], ◌∷◌, none, arith, get_or, length, length-replicate,
}
use tachyne_gw_bedrock.Maps.{MapFrame, blank_map, apply_frame}
use tachyne_gw_bedrock.Maps.Patches.{apply_frame-at, apply_frame-other}

abbrev patch : MapFrame
patch = record {
  map_id = 1;
  scale = 0;
  locked = false;
  left = 127;
  top = 3;
  width = 2;
  height = 1;
  colors = 8 ∷ 9 ∷ [];
  has_decor = false;
  decor = none;
}

abbrev doubled : ℕ → ℕ
doubled n = n * 2

blank_size : length blank_map.pixels ≡ 16384
blank_size = length-replicate {A = ℕ} 16384 0

apply_frame-at_example :
    get_or (apply_frame doubled patch blank_map).pixels ((3 + 0) * 128 + (127 + 0)) 0 ≡ 16
apply_frame-at_example =
    apply_frame-at doubled patch blank_map 0 0 blank_size (omega arith) (omega arith) (omega arith)
      (omega arith) (omega arith)

apply_frame-other_example :
    get_or (apply_frame doubled patch blank_map).pixels (4 * 128 + 5) 0
    ≡ get_or blank_map.pixels (4 * 128 + 5) 0
apply_frame-other_example =
    apply_frame-other doubled patch blank_map 5 4 (omega arith) (inl (omega arith))
