-- ===== src/Maps.antt =====
-- internal/gw/maps.go: the textures and markers of the maps that a session has seen. A pixel is
-- what mapColour makes of a packed byte; a frame's numbers are not negative.
pub mod Patches
use tachyne_gw_bedrock.Prelude.{
  ℕ, zero, suc, ◌+◌, ◌*◌, ◌%◌, ◌^◌, Bool, true, false, not, List, [], ◌∷◌, Option, none, some, ◌&&◌,
  ◌||◌, ◌==◌, ltb, leb, if◌then◌else◌, length, get_or, set, replicate,
}
use tachyne_gw_bedrock.Recipes.{find, put}

-- mapState
pub record MapState : Type 0 where
  pub pixels : List ℕ
  pub scale : ℕ
  pub locked : Bool
  pub decor : List ℕ

abbrev pub blank_map : MapState
blank_map = record { pixels = replicate (128 * 128) 0; scale = 0; locked = false; decor = [] }

-- mapStore, by map id.
abbrev pub MapStore : Type 0
MapStore = List (ℕ × MapState)

-- attach.MapData, as apply reads it. `decor` is none where the Go slice is nil.
pub record MapFrame : Type 0 where
  pub map_id : ℕ
  pub scale : ℕ
  pub locked : Bool
  pub left : ℕ
  pub top : ℕ
  pub width : ℕ
  pub height : ℕ
  pub colors : List ℕ
  pub has_decor : Bool
  pub decor : Option (List ℕ)

abbrev pub or_blank : Option MapState → MapState
or_blank none = blank_map
or_blank (some m) = m

abbrev pub listed : Option (List ℕ) → List ℕ
listed none = []
listed (some d) = d

abbrev pub is_some : Option (List ℕ) → Bool
is_some none = false
is_some (some d) = true

module _ (colour : ℕ → ℕ) (e : MapFrame) where
  -- One pixel of the patch; what hangs over the edge is passed over.
  unfoldable pub paint : ℕ → ℕ → List ℕ → List ℕ
  paint row col px =
      let x = e.left + col in
      let y = e.top + row in
      if ltb x 128 && ltb y 128
      then set px (y * 128 + x) (colour (get_or e.colors (row * e.width + col) 0))
      else px

  -- The columns of a row, from `col` on, and the rows from `row` on.
  unfoldable pub paint_row : ℕ → ℕ → ℕ → List ℕ → List ℕ
  unfolding paint
  paint_row row zero col px = px
  paint_row row (suc n) col px = paint_row row n (suc col) (paint row col px)

  unfoldable pub paint_rows : ℕ → ℕ → List ℕ → List ℕ
  unfolding paint_row
  paint_rows zero row px = px
  paint_rows (suc n) row px = paint_rows n (suc row) (paint_row row e.width 0 px)

  -- apply, to the map that the frame names.
  unfoldable pub apply_frame : MapState → MapState
  unfolding paint_rows
  apply_frame m =
      let draws =
        not (e.width == 0) && (not (e.height == 0) && leb (e.width * e.height) (length e.colors)) in
      record {
        pixels = if draws then paint_rows e.height 0 m.pixels else m.pixels;
        scale = e.scale % 2 ^ 8;
        locked = e.locked;
        decor = if e.has_decor || is_some e.decor then listed e.decor else m.decor;
      }

  -- apply
  unfoldable pub apply : MapStore → MapStore
  unfolding apply_frame
  apply store = put store e.map_id (apply_frame (or_blank (find store e.map_id)))

-- newMapStore, and get, of the map that it renders.
abbrev pub new_map_store : MapStore
new_map_store = []

unfoldable pub get_map : MapStore → ℕ → Option MapState
get_map store id = find store id
