-- ===== src/Scores/Client.antt =====
-- The lines that a Bedrock client has for each objective, after the packets of internal/gw/scoreboard.go.
use tachyne_gw_bedrock.Prelude.{
  ℕ, ◌≡◌, refl, ap, ◌∙◌, false, List, [], ◌∷◌, ◌++◌, Option, none, some, ◌&&◌, if◌then◌else◌,
  ==_iff, Bool-cases, inl, inr, arith,
}
use tachyne_gw_bedrock.Prelude.{◌==◌ as num_eq}
use Prim.Native.String.{String}
use text.Mathlib.Text.{◌==◌}
use tachyne_gw_bedrock.Scores.Board.{Slot, Objective, Board, lookup, line}
use tachyne_gw_bedrock.Scores.Frames.{
  score_packets, or_name, Entry, Packet, set_display, set_score, remove_objective, shown,
  entries_of, show_in,
}

-- The score and the text of a line, by objective and entry id; none where the client has no such line.
abbrev pub Lines : Type 0
Lines = String → ℕ → Option (ℕ × String)

abbrev pub on_entry : Entry → Lines → Lines
on_entry e c n i =
    if n == e.objective && num_eq i e.id
    then (if e.removed then none else some (e.score, e.text))
    else c n i

abbrev pub on_entries : List Entry → Lines → Lines
on_entries [] c = c
on_entries (e ∷ es) c = on_entries es (on_entry e c)

-- A removed objective takes its lines with it.
abbrev pub on_packet : Packet → Lines → Lines
on_packet (set_display slot name title) c n i = c n i
on_packet (set_score es) c n i = on_entries es c n i
on_packet (remove_objective name) c n i = if n == name then none else c n i

abbrev pub on_packets : List Packet → Lines → Lines
on_packets [] c = c
on_packets (p ∷ ps) c = on_packets ps (on_packet p c)

pub on_packets-append :
    (ps qs : List Packet) (c : Lines) → on_packets (ps ++ qs) c ≡ on_packets qs (on_packets ps c)
on_packets-append [] qs c = refl
on_packets-append (p ∷ ps) qs c = on_packets-append ps qs (on_packet p c)

module _ (entry_id : String → String → ℕ) where
  -- The score with this entry id.
  unfoldable pub find_entry : String → ℕ → List (String × ℕ) → Option (String × ℕ)
  find_entry name i [] = none
  find_entry name i ((owner, points) ∷ scores) =
      if num_eq i (entry_id name owner) then some (owner, points) else find_entry name i scores

  -- No two owners of the objective share an entry id.
  abbrev pub Distinct : String → List (String × ℕ) → Type 0
  Distinct name [] = Unit
  Distinct name ((owner, points) ∷ scores) =
      (find_entry name (entry_id name owner) scores ≡ none) × Distinct name scores

  abbrev pub line_of :
      Board → Objective → Option (String × ℕ) → Option (ℕ × String) → Option (ℕ × String)
  line_of b o none old = old
  line_of b o (some (owner, points)) old = some (points, line b o owner)

  -- The lines that the board has for an objective that is shown.
  abbrev pub lines_in : Board → String → ℕ → Option Objective → Option (ℕ × String)
  lines_in b n i none = none
  lines_in b n i (some o) = line_of b o (find_entry n i o.scores) none

  unfoldable pub board_lines : Board → Lines
  board_lines b n i = if shown n b.slots then lines_in b n i (lookup n b.objectives) else none

  -- What the whole of an objective's entries makes of the lines.
  abbrev pub drawn : Board → String → Objective → List (String × ℕ) → Lines → Lines
  drawn b name o scores c n i =
      if n == name then line_of b o (find_entry name i scores) (c n i) else c n i

  module _ (chat_colours : List (String × String)) (team_colours : List String) where
    on_entries-entries_of :
        (b : Board) (name : String) (o : Objective) (scores : List (String × ℕ)) (c : Lines)
        (n : String) (i : ℕ)
        → Distinct name scores
        → on_entries (entries_of entry_id chat_colours team_colours b name o scores) c n i
          ≡ drawn b name o scores c n i
    unfolding entries_of find_entry
    on_entries-entries_of b name o [] c n i d = ground arith
    on_entries-entries_of b name o ((owner, points) ∷ scores) c n i d =
        on_entries-entries_of b name o scores (on_entry first c) n i d.1
        ∙ elim (Bool-cases (n == name)) [
          | inl h ↦ rw h (elim (Bool-cases (num_eq i (entry_id name owner))) [
            | inl q ↦
                rw
                  (
                    q,
                    ap (λ j. find_entry name j scores) ((==_iff i (entry_id name owner)).0 q) ∙ d.0,
                  )
                  refl
            | inr q ↦ rw q refl
          ])
          | inr h ↦ rw h refl
        ]
      where
        first : Entry
        first = record {
          id = entry_id name owner;
          objective = name;
          score = points;
          removed = false;
          text = line b o owner;
        }

    -- Packets that change the lines as a function of what they were, for one objective and id.
    pub on_show_in :
        (b : Board) (slot : Slot) (name : String) (o : Objective) (c : Lines) (n : String) (i : ℕ)
        → Distinct name o.scores
        → on_packets (show_in entry_id chat_colours team_colours b slot name o) c n i
          ≡ drawn b name o o.scores c n i
    unfolding show_in
    on_show_in b slot name o c n i d =
        packets_of (entries_of entry_id chat_colours team_colours b name o o.scores)
        ∙ on_entries-entries_of b name o o.scores c n i d
      where
        packets_of :
            (es : List Entry)
            → on_packets
                (score_packets entry_id chat_colours team_colours es)
                (on_packet
                  (set_display slot name (or_name entry_id chat_colours team_colours o.title name))
                  c)
                n
                i
              ≡ on_entries es c n i
        packets_of [] = refl
        packets_of (e ∷ es) = refl
