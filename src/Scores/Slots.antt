-- ===== src/Scores/Slots.antt =====
-- The map of slots of the scoreboard, and which objectives are shown (internal/gw/scoreboard.go).
use tachyne_gw_bedrock.Prelude.{
  ◌≡◌, refl, ap, ◌∙◌, true, false, List, [], ◌∷◌, none, some, if◌then◌else◌, Bool-cases, inl, inr,
  arith,
}
use Prim.Native.String.{String}
use mathlib.Core.Option.{some-injective}
use text.Mathlib.Text.{◌==◌}
use text.Mathlib.TextPositions.{eq_refl}
use tachyne_gw_bedrock.Scores.Board.{Slot, same_slot}
use tachyne_gw_bedrock.Scores.Frames.{find_slot, set_slot, drop_slot, shown}

pub shown-set_slot_self :
    (slot : Slot) (n : String) (slots : List (Slot × String))
    → shown n (set_slot slot n slots) ≡ true
unfolding shown set_slot
shown-set_slot_self slot n [] = rw (eq_refl n) refl
shown-set_slot_self slot n ((t, m) ∷ slots) = elim (Bool-cases (same_slot t slot)) [
  | inl h ↦ rw (h, eq_refl n) refl
  | inr h ↦ rw (h, shown-set_slot_self slot n slots) (ground arith)
]

pub shown-set_slot_ne :
    (slot : Slot) (n name : String) (slots : List (Slot × String))
    → (name == n) ≡ false
    → shown n (set_slot slot name slots) ≡ shown n (drop_slot slot slots)
unfolding shown set_slot drop_slot
shown-set_slot_ne slot n name [] h = rw h refl
shown-set_slot_ne slot n name ((t, m) ∷ slots) h = elim (Bool-cases (same_slot t slot)) [
  | inl q ↦ rw (q, h) refl
  | inr q ↦ rw q (ap (λ b. if m == n then true else b) (shown-set_slot_ne slot n name slots h))
]

pub drop_slot-none :
    (slot : Slot) (slots : List (Slot × String))
    → find_slot slot slots ≡ none
    → drop_slot slot slots ≡ slots
unfolding find_slot drop_slot
drop_slot-none slot [] e = refl
drop_slot-none slot ((t, m) ∷ slots) e = elim (Bool-cases (same_slot t slot)) [
  | inl h ↦ cc (rw h at e)
  | inr h ↦ rw h (ap (◌∷◌ (t, m)) (drop_slot-none slot slots (rw h at e)))
]

pub shown-drop_slot :
    (slot : Slot) (n prev : String) (slots : List (Slot × String))
    → find_slot slot slots ≡ some prev
    → (prev == n) ≡ false
    → shown n (drop_slot slot slots) ≡ shown n slots
unfolding find_slot shown drop_slot
shown-drop_slot slot n prev [] e h = cc
shown-drop_slot slot n prev ((t, m) ∷ slots) e h = elim (Bool-cases (same_slot t slot)) [
  | inl q ↦ rw (q, ap (λ k. k == n) (some-injective _ _ (rw q at e)) ∙ h) refl
  | inr q ↦
      rw q (ap (λ b. if m == n then true else b) (shown-drop_slot slot n prev slots (rw q at e) h))
]

pub find_slot-shown :
    (slot : Slot) (n : String) (slots : List (Slot × String))
    → find_slot slot slots ≡ some n
    → shown n slots ≡ true
unfolding find_slot shown
find_slot-shown slot n [] e = cc
find_slot-shown slot n ((t, m) ∷ slots) e = elim (Bool-cases (same_slot t slot)) [
  | inl h ↦ rw (ap (λ k. k == n) (some-injective _ _ (rw h at e)) ∙ eq_refl n) refl
  | inr h ↦ rw (find_slot-shown slot n slots (rw h at e)) (ground arith)
]

pub drop_slot-unshown :
    (slot : Slot) (n : String) (slots : List (Slot × String))
    → shown n slots ≡ false
    → shown n (drop_slot slot slots) ≡ false
unfolding shown drop_slot
drop_slot-unshown slot n [] h = refl
drop_slot-unshown slot n ((t, m) ∷ slots) h = elim (Bool-cases (m == n)) [
  | inl q ↦ cc (rw q at h)
  | inr q ↦ elim (Bool-cases (same_slot t slot)) [
    | inl p ↦ rw p (rw q at h)
    | inr p ↦ rw (p, q) (drop_slot-unshown slot n slots (rw q at h))
  ]
]
