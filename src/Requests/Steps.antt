-- ===== src/Requests/Steps.antt =====
-- internal/gw/crafting.go: what the world must do for a request, and the state that a walk over a
-- request's actions keeps.
use Prim.Native.String.{String}
use tachyne_gw_bedrock.Prelude.{ℕ, Bool, false, List, [], ◌∷◌, ◌++◌, ◌||◌, ◌==◌, if◌then◌else◌}
use tachyne_gw_bedrock.Item.{ItemStack}
use tachyne_gw_bedrock.Moves.{WindowClick}

-- craftStep: each sets one of the Go struct's fields.
pub data CraftStep : Type 0 where
  place : ℕ → ℕ → CraftStep
  click : WindowClick → CraftStep
  name : String → CraftStep
  select_trade : ℕ → CraftStep
  enchant : ℕ → CraftStep
  set_beacon : ℕ → ℕ → CraftStep
  -- The slot and the item.
  creative : ℕ → ItemStack → CraftStep

-- Whether a slot is a key of the map `touched`, and setting one.
unfoldable pub elem : ℕ → List ℕ → Bool
elem j [] = false
elem j (k ∷ ks) = j == k || elem j ks

unfoldable pub touch : ℕ → List ℕ → List ℕ
touch j touched = if elem j touched then touched else j ∷ touched

-- The mirror's slots, the slots touched and the world's steps so far.
pub record Work : Type 0 where
  pub slots : List ItemStack
  pub touched : List ℕ
  pub steps : List CraftStep

abbrev pub start : List ItemStack → Work
start xs = record { slots = xs; touched = []; steps = [] }

abbrev pub say : Work → CraftStep → Work
say w s = record w { steps = w.steps ++ (s ∷ []) }
