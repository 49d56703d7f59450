-- ===== src/Windows/Enchanting.antt =====
-- internal/gw/enchanting.go: the network ids of the enchanting table's rows.
use tachyne_gw_bedrock.Prelude.{
  ℕ, zero, suc, ◌+◌, ◌<◌, ◌^◌, ◌≡◌, ◌≢◌, refl, sym, ap, ◌⊎◌, inl, inr, Bool-cases, List, [], ◌∷◌,
  some, arith, length, get_elem?,
}
use mathlib.Core.Option.{some-injective}
use tachyne_gw_bedrock.Mirror.{Mirror, EnchantRow}
use tachyne_gw_bedrock.Requests.Crafts.{find_row, enchant_button}
use tachyne_gw_bedrock.Windows.{is_offered, number_rows, enchant_options}

-- The ids given to rows are 0 or new.
number_rows-new :
    (c : ℕ) (rows : List EnchantRow) (i : ℕ) (r : EnchantRow)
    → c + length rows < 2 ^ 32
    → get_elem? (number_rows c rows) i ≡ some r
    → (r.net_id ≡ 0) ⊎ (c < r.net_id)
unfolding number_rows
number_rows-new c [] i r h e = cc
number_rows-new c (x ∷ rows) zero r h e = elim (Bool-cases (is_offered x)) [
  | inl q ↦ rw (← some-injective _ _ (rw q at e)) (inr (omega arith))
  | inr q ↦ rw (← some-injective _ _ (rw q at e)) (inl refl)
]
number_rows-new c (x ∷ rows) (suc i) r h e = elim (Bool-cases (is_offered x)) [
  | inl q ↦ ground (arith, number_rows-new (c + 1) rows i r (omega arith) (rw q at e))
  | inr q ↦ number_rows-new c rows i r (omega arith) (rw q at e)
]

find_row-number_rows :
    (c : ℕ) (rows : List EnchantRow) (j i : ℕ) (r : EnchantRow)
    → c + length rows < 2 ^ 32
    → get_elem? (number_rows c rows) i ≡ some r
    → r.net_id ≢ 0
    → find_row (number_rows c rows) j r.net_id ≡ some (j + i)
unfolding number_rows find_row
find_row-number_rows c [] j i r h e n = cc
find_row-number_rows c (x ∷ rows) j zero r h e n = elim (Bool-cases (is_offered x)) [
  | inl q ↦ rw (q, ← some-injective _ _ (rw q at e)) (ground arith)
  | inr q ↦ absurd (n (ap (λ (y : EnchantRow). y.net_id) (sym (some-injective _ _ (rw q at e)))))
]
find_row-number_rows c (x ∷ rows) j (suc i) r h e n = elim (Bool-cases (is_offered x)) [
  | inl q ↦ rw q (
      ground (
        arith,
        number_rows-new (c + 1) rows i r (omega arith) (rw q at e),
        find_row-number_rows (c + 1) rows (suc j) i r (omega arith) (rw q at e) n,
      ))
  | inr q ↦
      rw q (ground (arith, find_row-number_rows c rows (suc j) i r (omega arith) (rw q at e) n))
]

-- The network id that enchantOptions gives to a row that is on offer leads enchantButton back to
-- that row, as long as the counter of ids does not wrap around.
pub enchant_button-enchant_options :
    (m : Mirror) (c i : ℕ) (r : EnchantRow)
    → c + length m.ench < 2 ^ 32
    → get_elem? (enchant_options c m).ench i ≡ some r
    → r.net_id ≢ 0
    → enchant_button (enchant_options c m) r.net_id ≡ some i
unfolding enchant_options enchant_button
enchant_button-enchant_options m c i r h e n =
    ground (arith, find_row-number_rows c m.ench 0 i r h e n)
