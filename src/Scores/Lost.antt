-- ===== src/Scores/Lost.antt =====
-- An objective that leaves one of its slots (internal/gw/scoreboard.go).
use tachyne_gw_bedrock.Prelude.{
  ℕ, ◌≡◌, refl, ap, ◌∙◌, true, false, List, Option, none, some, Bool-cases, inl, inr,
}
use Prim.Native.String.{String}
use text.Mathlib.Text.{◌==◌}
use text.Mathlib.TextPositions.{eq_refl}
use tachyne_gw_bedrock.Scores.Board.{Slot, Board, lookup, insert}
use tachyne_gw_bedrock.Scores.Frames.{
  find_slot, set_slot, drop_slot, shown, or_new, replaced, display_in, show_in,
}
use tachyne_gw_bedrock.Scores.Client.{Lines, on_packets, on_packets-append, on_show_in}
use tachyne_gw_bedrock.Scores.Redraw.{==-comm}
use tachyne_gw_bedrock.Scores.Tables.{AllDistinct}
use tachyne_gw_bedrock.Scores.Kept.{or_new-Distinct}
use tachyne_gw_bedrock.Scores.Slots.{shown-set_slot_ne}

module _ (entry_id : String → String → ℕ) (chat_colours : List (String × String))
    (team_colours : List String) where
  on_removed :
      (found : Option String) (prev name : String) (c : Lines) (i : ℕ)
      → found ≡ some prev
      → (prev == "") ≡ false
      → (prev == name) ≡ false
      → on_packets (replaced entry_id chat_colours team_colours found name) c prev i ≡ none
  unfolding replaced
  on_removed found prev name c i e named other = rw (e, named, other, eq_refl prev) refl

  -- When a slot is given another objective or none, and the objective that leaves it is shown in a second slot as well, the board
  -- still shows that objective there, but the client has lost all its lines.
  pub display_in-lost :
      (slot : Slot) (name prev : String) (b : Board) (c : Lines)
      → find_slot slot b.slots ≡ some prev
      → (prev == "") ≡ false
      → (prev == name) ≡ false
      → shown prev (drop_slot slot b.slots) ≡ true
      → AllDistinct entry_id b.objectives
      → let (b', ps) = display_in entry_id chat_colours team_colours slot name b in
        (shown prev b'.slots ≡ true) × ((i : ℕ) → on_packets ps c prev i ≡ none)
  unfolding display_in
  display_in-lost slot name prev b c e named other still d = elim (Bool-cases (name == "")) [
    | inl h ↦ rw h (still, λ i. on_removed (find_slot slot b.slots) prev name c i e named other)
    | inr h ↦
        let out = replaced entry_id chat_colours team_colours (find_slot slot b.slots) name in
        let o = or_new entry_id chat_colours team_colours (lookup name b.objectives) in
        let b' = record b {
          slots = set_slot slot name b.slots;
          objectives = insert name o b.objectives;
        } in
        rw h (
          shown-set_slot_ne slot prev name b.slots (==-comm name prev ∙ other) ∙ still,
          λ i.
              ap (λ (l : Lines). l prev i)
                (on_packets-append out (show_in entry_id chat_colours team_colours b' slot name o)
                  c)
              ∙ on_show_in entry_id chat_colours team_colours b' slot name o (on_packets out c) prev
                  i (or_new-Distinct entry_id chat_colours team_colours name b d)
              ∙ rw other (on_removed (find_slot slot b.slots) prev name c i e named other),
        )
  ]
