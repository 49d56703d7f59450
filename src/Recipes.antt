-- ===== src/Recipes.antt =====
-- internal/gw/crafting.go and smithloom.go: what the client has been told it can craft, and the
-- network ids of the stonecutter's and the smithing table's recipes.
use tachyne_gw_bedrock.Prelude.{
  ℕ, ◌+◌, ◌-◌, ◌%◌, ◌^◌, Bool, List, [], ◌∷◌, ◌++◌, reverse, Option, none, some, ◌==◌, ltb, lt_i32,
  map, if◌then◌else◌, get_elem?,
}
use tachyne_gw_bedrock.Item.{ItemStack}

-- attach.ShapedRecipe and attach.ShapelessRecipe: the fields that the gateway reads.
pub record ShapedRecipe : Type 0 where
  pub id : ℕ
  pub result : ℕ
  pub count : ℕ
  pub width : ℕ
  pub height : ℕ
  pub cells : List ℕ

pub record ShapelessRecipe : Type 0 where
  pub id : ℕ
  pub result : ℕ
  pub count : ℕ
  pub ingredients : List ℕ

-- attach.RecipeBook
pub record RecipeBook : Type 0 where
  pub replace : Bool
  pub shaped : List ShapedRecipe
  pub shapeless : List ShapelessRecipe

-- craftOutput
pub record CraftOutput : Type 0 where
  pub book_id : ℕ
  pub result : ItemStack

-- recipeSet, its map of outputs an association list with one entry for each key.
pub record RecipeSet : Type 0 where
  pub shaped : List ShapedRecipe
  pub shapeless : List ShapelessRecipe
  pub outputs : List (ℕ × CraftOutput)

-- Reading and writing a Go map.
module _ {ℓ} {V : Type ℓ} where
  pub find : List (ℕ × V) → ℕ → Option V
  find [] k = none
  find ((j, v) ∷ m) k = if j == k then some v else find m k

  pub put : List (ℕ × V) → ℕ → V → List (ℕ × V)
  put [] k v = (k, v) ∷ []
  put ((j, w) ∷ m) k v = if j == k then (k, v) ∷ m else (j, w) ∷ put m k v

-- newRecipeSet
unfoldable pub new_recipe_set : RecipeSet
new_recipe_set = record { shaped = []; shapeless = []; outputs = [] }

-- networkID: uint32(bookID) + 1.
unfoldable pub network_id : ℕ → ℕ
network_id book_id = (book_id + 1) % 2 ^ 32

abbrev made : ℕ → ℕ → ℕ → CraftOutput
made id result count = record {
  book_id = id;
  result = record { id = result; count = count; components = [] };
}

-- The two loops of add.
unfoldable pub add_shaped : List ShapedRecipe → RecipeSet → RecipeSet
add_shaped [] r = r
add_shaped (s ∷ rest) r = add_shaped rest (record r {
  shaped = r.shaped ++ (s ∷ []);
  outputs = put r.outputs (network_id s.id) (made s.id s.result s.count);
})

unfoldable pub add_shapeless : List ShapelessRecipe → RecipeSet → RecipeSet
add_shapeless [] r = r
add_shapeless (s ∷ rest) r = add_shapeless rest (record r {
  shapeless = r.shapeless ++ (s ∷ []);
  outputs = put r.outputs (network_id s.id) (made s.id s.result s.count);
})

-- add
unfoldable pub add_book : RecipeSet → RecipeBook → RecipeSet
unfolding new_recipe_set
add_book r b =
    add_shapeless b.shapeless (add_shaped b.shaped (if b.replace then new_recipe_set else r))

-- output: the set may be nil.
unfoldable pub output : Option RecipeSet → ℕ → Option CraftOutput
output none id = none
output (some r) id = find r.outputs id

-- stonecutBase and smithBase
abbrev pub stonecut_base : ℕ
stonecut_base = 2 ^ 20

abbrev pub smith_base : ℕ
smith_base = 2 ^ 21

-- tproto.StonecuttingRecipes, an entry of the shared table.
pub record Cut : Type 0 where
  pub source : ℕ
  pub made : ℕ
  pub count : ℕ

-- stonecutEntry
pub record StonecutEntry : Type 0 where
  pub button : ℕ
  pub result : ItemStack

abbrev pub or_zero : Option ℕ → ℕ
or_zero none = 0
or_zero (some n) = n

-- stonecutRecipes: entry i has network id stonecutBase + i; `rows` counts the recipes of each input.
pub stonecut_entries : List Cut → List (ℕ × ℕ) → List StonecutEntry
stonecut_entries [] rows = []
stonecut_entries (c ∷ cs) rows =
    let row = or_zero (find rows c.source) in
    record { button = row; result = record { id = c.made; count = c.count; components = [] } }
    ∷ stonecut_entries cs (put rows c.source (row + 1))

unfoldable pub stonecut_recipe : List Cut → ℕ → Option StonecutEntry
stonecut_recipe cuts id =
    if ltb id stonecut_base then none else get_elem? (stonecut_entries cuts []) (id - stonecut_base)

-- sortedKeys: insertion sort, each key of the map in turn moved down past the larger ones. The
-- sorted part is kept with its last key first.
pub sink : ℕ → List ℕ → List ℕ
sink k [] = k ∷ []
sink k (x ∷ xs) = if lt_i32 k x then x ∷ sink k xs else k ∷ (x ∷ xs)

pub sort_onto : List ℕ → List ℕ → List ℕ
sort_onto [] sorted = sorted
sort_onto (k ∷ ks) sorted = sort_onto ks (sink k sorted)

abbrev pub keys : List (ℕ × ℕ) → List ℕ
keys = map (λ (e : ℕ × ℕ). e.0)

unfoldable pub sorted_keys : List (ℕ × ℕ) → List ℕ
sorted_keys m = reverse (sort_onto (keys m) [])

-- smithRecipes: the i-th base in order has network id smithBase + i, and becomes what the table says.
unfoldable pub smith_recipe : List (ℕ × ℕ) → ℕ → Option ItemStack
unfolding sorted_keys
smith_recipe table id =
    if ltb id smith_base then none else elim (get_elem? (sorted_keys table) (id - smith_base)) [
      | none ↦ none
      | some base ↦ some (record { id = or_zero (find table base); count = 1; components = [] })
    ]
