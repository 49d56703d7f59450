-- ===== src/Requests/Apply.antt =====
-- internal/gw/itemstack.go and beacon.go: applyRequest, which looks at a request's first action.
pub mod Laws
use tachyne_gw_bedrock.Prelude.{
  ℕ, Bool, List, [], ◌∷◌, Option, if◌then◌else◌, lt_i32, Res, ok, refuse,
}
use tachyne_gw_bedrock.Protocol.{
  Action, craft_recipe, auto_craft_recipe, craft_optional, craft_grindstone, craft_loom,
  craft_creative, beacon_payment_action, Request,
}
use tachyne_gw_bedrock.Mirror.{Mirror}
use tachyne_gw_bedrock.Recipes.{RecipeSet}
use tachyne_gw_bedrock.Requests.Steps.{Work, CraftStep, start, say}
use tachyne_gw_bedrock.Requests.Steps
use tachyne_gw_bedrock.Requests.Transfers.{apply_actions}
use tachyne_gw_bedrock.Requests.Crafts.{Tables}
use tachyne_gw_bedrock.Requests.Crafts.Apply.{apply_craft}
use tachyne_gw_bedrock.Requests.Creative.{apply_creative}

-- What a request is, by its first action.
pub data Kind : Type 0 where
  crafts stocks moves : Kind
  pays : ℕ → ℕ → Kind

abbrev pub kind_of : List Action → Kind
kind_of (craft_recipe id ∷ rest) = crafts
kind_of (auto_craft_recipe id ∷ rest) = crafts
kind_of (craft_optional i ∷ rest) = crafts
kind_of (craft_grindstone ∷ rest) = crafts
kind_of (craft_loom p ∷ rest) = crafts
kind_of (craft_creative id ∷ rest) = stocks
kind_of (beacon_payment_action p s ∷ rest) = pays p s
kind_of _ = moves

-- max32
unfoldable pub max_i32 : ℕ → ℕ → ℕ
max_i32 a b = if lt_i32 b a then a else b

-- beaconPayment
unfoldable pub beacon_payment : ℕ → ℕ → CraftStep
unfolding max_i32
beacon_payment primary secondary = CraftStep.set_beacon (max_i32 primary 0) (max_i32 secondary 0)

-- applyRequest. A refusal leaves the mirror as it was: the code puts the slots back.
unfoldable pub apply_request : Mirror → Tables → List ℕ → Option RecipeSet → Request → Res Work
unfolding apply_actions apply_craft apply_creative beacon_payment
apply_request m t listing recipes req = elim (kind_of req.actions) [
  | crafts ↦ apply_craft m t recipes req.actions req.filter_strings
  | stocks ↦ apply_creative m listing req.actions
  | pays p s ↦ if m.beacon then ok (say (start m.slots) (beacon_payment p s)) else refuse
  | moves ↦ apply_actions m (start m.slots) req.actions
]
