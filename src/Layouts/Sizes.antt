-- ===== src/Layouts/Sizes.antt =====
-- internal/gw/horse.go: how long a mount's layout is.
use tachyne_gw_bedrock.Prelude.{
  ℕ, zero, suc, ◌+◌, ◌*◌, ◌%◌, ◌^◌, ◌≤◌, ◌<◌, ◌≡◌, refl, ap, Bool, true, false, ◌==◌, arith, length,
  length-append,
}
use tachyne_gw_bedrock.Protocol.{Container}
use tachyne_gw_bedrock.Layouts.{run_of, equipment, horse_layout}

length-run_of : (c : Container) (n i : ℕ) → length (run_of c n i) ≡ n
length-run_of c zero i = refl
length-run_of c (suc n) i = ap suc (length-run_of c n (suc i))

length-equipment : (bare llama : Bool) → length (equipment bare llama) ≡ 2
length-equipment true llama = refl
length-equipment false true = refl
length-equipment false false = refl

pub length-horse_layout :
    (columns : ℕ) (llama : Bool)
    → columns < 2 ^ 26
    → length (horse_layout columns llama) ≤ 2 + columns * 3
unfolding horse_layout
length-horse_layout columns llama h = omega (
  arith,
  length-append (equipment (columns == 0) llama)
      (run_of Container.level_entity (columns * 3 % 2 ^ 32) 1),
  length-equipment (columns == 0) llama,
  length-run_of Container.level_entity (columns * 3 % 2 ^ 32) 1,
)
