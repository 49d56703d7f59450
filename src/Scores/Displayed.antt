-- ===== src/Scores/Displayed.antt =====
-- A slot that is given another objective, on the board and in the client's lines (internal/gw/scoreboard.go).
use tachyne_gw_bedrock.Prelude.{
  ℕ, ◌≡◌, ◌⊎◌, refl, subst, sym, ap, ◌∙◌, Bool, true, false, List, ◌++◌, Option, none, some, ◌||◌,
  if◌then◌else◌, Bool-cases, inl, inr,
}
use Prim.Native.String.{String}
use text.Mathlib.Text.{◌==◌}
use text.Mathlib.TextEquality.{eq_iff}
use text.Mathlib.TextPositions.{eq_refl}
use tachyne_gw_bedrock.Scores.Board.{Slot, Objective, Board, lookup, insert, line}
use tachyne_gw_bedrock.Scores.Frames.{
  Packet, find_slot, set_slot, drop_slot, shown, or_new, replaced, display_in, show_in,
}
use tachyne_gw_bedrock.Scores.Client.{
  Lines, on_packets, on_packets-append, find_entry, line_of, lines_in, board_lines, drawn,
  on_show_in,
}
use tachyne_gw_bedrock.Scores.Redraw.{==-comm}
use tachyne_gw_bedrock.Scores.Tables.{lookup-insert, AllDistinct, insert-AllDistinct}
use tachyne_gw_bedrock.Scores.Scored.{Drawn}
use tachyne_gw_bedrock.Scores.Kept.{or_new-Distinct}
use tachyne_gw_bedrock.Scores.Slots.{
  shown-set_slot_self, shown-set_slot_ne, drop_slot-none, shown-drop_slot, find_slot-shown,
  drop_slot-unshown,
}

or_true : (b : Bool) → (b || true) ≡ true
or_true true = refl
or_true false = refl

-- No slot is bound to an empty name.
abbrev pub Named : Board → Type 0
Named b = shown "" b.slots ≡ false

-- The objective that leaves the slot is shown in no other slot.
abbrev pub LeavesAll : Slot → String → Board → Type 0
LeavesAll slot name b =
    (prev : String)
    → find_slot slot b.slots ≡ some prev
    → (prev == name) ≡ false
    → shown prev (drop_slot slot b.slots) ≡ false

module _ (entry_id : String → String → ℕ) (chat_colours : List (String × String))
    (team_colours : List String) where
  -- What the client has once the slot's old objective is gone.
  on_replaced :
      (slot : Slot) (name : String) (b : Board) (c : Lines) (n : String) (i : ℕ)
      → Named b
      → LeavesAll slot name b
      → Drawn entry_id b c
      → (name == n) ≡ false
      → on_packets (replaced entry_id chat_colours team_colours (find_slot slot b.slots) name) c n i
        ≡ (if shown n (drop_slot slot b.slots)
            then lines_in entry_id b n i (lookup n b.objectives)
            else none)
  unfolding board_lines replaced
  on_replaced slot name b c n i named leaves r apart = by_prev (find_slot slot b.slots) refl
    where
      not_empty : (prev : String) → find_slot slot b.slots ≡ some prev → (prev == "") ≡ false
      not_empty prev e = elim (Bool-cases (prev == "")) [
        | inl h ↦ cc (
          named,
          ap (λ k. shown k b.slots) (sym ((eq_iff prev "").0 h)),
          find_slot-shown slot prev b.slots e,
        )
        | inr h ↦ h
      ]

      by_prev :
          (prev : Option String)
          → find_slot slot b.slots ≡ prev
          → on_packets (replaced entry_id chat_colours team_colours prev name) c n i ≡ (
              if shown n (drop_slot slot b.slots)
              then lines_in entry_id b n i (lookup n b.objectives)
              else none)
      by_prev none e = rw (drop_slot-none slot b.slots e) (r n i)
      by_prev (some prev) e = elim (Bool-cases (prev == n)) [
        | inl h ↦
            let same = (eq_iff prev n).0 h in
            let off : (prev == name) ≡ false = ap (λ k. k == name) same ∙ ==-comm n name ∙ apart in
            let gone : shown n (drop_slot slot b.slots) ≡ false =
              ap (λ k. shown k (drop_slot slot b.slots)) (sym same) ∙ leaves prev e off in
            rw (not_empty prev e, off, gone, ==-comm n prev, h) refl
        | inr h ↦
            rw (shown-drop_slot slot n prev b.slots e h)
              (elim (Bool-cases (prev == "" || prev == name)) [
                | inl q ↦ rw q (r n i)
                | inr q ↦ rw (q, ==-comm n prev, h) (r n i)
              ])
      ]

  -- The objective that a slot is given is never the one that is removed.
  on_replaced_self :
      (prev : Option String) (name : String) (c : Lines) (n : String) (i : ℕ)
      → (name == n) ≡ true
      → on_packets (replaced entry_id chat_colours team_colours prev name) c n i ≡ c n i
  unfolding replaced
  on_replaced_self none name c n i h = refl
  on_replaced_self (some prev) name c n i h = elim (Bool-cases (prev == "" || prev == name)) [
    | inl q ↦ rw q refl
    | inr q ↦ rw q (elim (Bool-cases (n == prev)) [
      | inl p ↦
          let same : (prev == name) ≡ true =
            ==-comm prev name ∙ ap (λ k. name == k) (sym ((eq_iff n prev).0 p)) ∙ h in
          let off : (prev == "" || true) ≡ false = rw same at q in cc (or_true (prev == ""), off)
      | inr p ↦ rw p refl
    ])
  ]

  -- Drawing an objective over lines that it had, or over none, gives its lines.
  drawn-lines :
      (b b' : Board) (name : String) (i : ℕ) (found : Option Objective) (x : Option (ℕ × String))
      → (x ≡ none) ⊎ (x ≡ lines_in entry_id b name i found)
      → line_of entry_id b'
          (or_new entry_id chat_colours team_colours found)
          (find_entry entry_id name i (or_new entry_id chat_colours team_colours found).scores)
          x
        ≡ lines_in entry_id b' name i (some (or_new entry_id chat_colours team_colours found))
  drawn-lines b b' name i none x (inl e) = unfold find_entry in e
  drawn-lines b b' name i none x (inr e) = unfold find_entry in e
  drawn-lines b b' name i (some o) x h = by_entry (find_entry entry_id name i o.scores) h
    where
      by_entry :
          (f : Option (String × ℕ))
          → (x ≡ none) ⊎ (x ≡ line_of entry_id b o f none)
          → line_of entry_id b' o f x ≡ line_of entry_id b' o f none
      by_entry none (inl e) = e
      by_entry none (inr e) = e
      by_entry (some s) e = refl

  pub display_in-keeps :
      (slot : Slot) (name : String) (b : Board) (c : Lines)
      → Named b
      → LeavesAll slot name b
      → AllDistinct entry_id b.objectives
      → Drawn entry_id b c
      → let (b', ps) = display_in entry_id chat_colours team_colours slot name b in
        Named b' × AllDistinct entry_id b'.objectives × Drawn entry_id b' (on_packets ps c)
  unfolding display_in board_lines line
  display_in-keeps slot name b c named leaves d r = elim (Bool-cases (name == "")) [
    | inl h ↦ rw h (drop_slot-unshown slot "" b.slots named, d, cleared h)
    | inr h ↦ rw h (
      shown-set_slot_ne slot "" name b.slots h ∙ drop_slot-unshown slot "" b.slots named,
      insert-AllDistinct entry_id b.objectives name o d
          (or_new-Distinct entry_id chat_colours team_colours name b d),
      shown_now,
    )
  ]
    where
      o : Objective
      o = or_new entry_id chat_colours team_colours (lookup name b.objectives)

      b' : Board
      b' = record b { slots = set_slot slot name b.slots; objectives = insert name o b.objectives }

      out : List Packet
      out = replaced entry_id chat_colours team_colours (find_slot slot b.slots) name

      cleared :
          (name == "") ≡ true
          → (n : String) (i : ℕ)
          → on_packets out c n i
            ≡ board_lines entry_id (record b { slots = drop_slot slot b.slots }) n i
      cleared h n i = elim (Bool-cases (name == n)) [
        | inl q ↦
            let hidden : shown n b.slots ≡ false =
              ap (λ k. shown k b.slots) (sym ((eq_iff name n).0 q) ∙ (eq_iff name "").0 h)
              ∙ named in
            on_replaced_self (find_slot slot b.slots) name c n i q
            ∙ r n i
            ∙ rw (hidden, drop_slot-unshown slot n b.slots hidden) refl
        | inr q ↦ on_replaced slot name b c n i named leaves r q
      ]

      here :
          (i : ℕ)
          → drawn entry_id b' name o o.scores (on_packets out c) name i
            ≡ board_lines entry_id b' name i
      here i =
          let stored : lookup name b'.objectives ≡ some o =
            lookup-insert name name o b.objectives ∙ rw (eq_refl name) refl in
          let was : on_packets out c name i ≡ c name i =
            on_replaced_self (find_slot slot b.slots) name c name i (eq_refl name) in
          rw (eq_refl name, shown-set_slot_self slot name b.slots, stored, was)
            (drawn-lines b b' name i (lookup name b.objectives) (c name i)
              (before i (Bool-cases (shown name b.slots))))
        where
          before :
              (i : ℕ)
              → (shown name b.slots ≡ true) ⊎ (shown name b.slots ≡ false)
              → (c name i ≡ none)
                ⊎ (c name i ≡ lines_in entry_id b name i (lookup name b.objectives))
          before i (inl s) = inr (r name i ∙ rw s refl)
          before i (inr s) = inl (r name i ∙ rw s refl)

      shown_now :
          (n : String) (i : ℕ)
          → on_packets (out ++ show_in entry_id chat_colours team_colours b' slot name o) c n i
            ≡ board_lines entry_id b' n i
      shown_now n i =
          ap (λ (l : Lines). l n i)
            (on_packets-append out (show_in entry_id chat_colours team_colours b' slot name o) c)
          ∙ on_show_in entry_id chat_colours team_colours b' slot name o (on_packets out c) n i
              (or_new-Distinct entry_id chat_colours team_colours name b d)
          ∙ elim (Bool-cases (name == n)) [
            | inl q ↦
                subst
                  (λ m.
                    drawn entry_id b' name o o.scores (on_packets out c) m i
                    ≡ board_lines entry_id b' m i)
                  ((eq_iff name n).0 q) (here i)
            | inr q ↦
                let stored : lookup n b'.objectives ≡ lookup n b.objectives =
                  lookup-insert name n o b.objectives ∙ rw q refl in
                rw (==-comm n name, q, shown-set_slot_ne slot n name b.slots q, stored)
                  (on_replaced slot name b c n i named leaves r q)
          ]
