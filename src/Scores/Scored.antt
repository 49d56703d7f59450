-- ===== src/Scores/Scored.antt =====
-- A score, an objective and a team folded into the board and into the client's lines (internal/gw/scoreboard.go).
use tachyne_gw_bedrock.Prelude.{
  ℕ, ◌≡◌, refl, subst, sym, ap, ◌∙◌, false, List, Option, none, some, if◌then◌else◌, ==_iff,
  Bool-cases, inl, inr,
}
use tachyne_gw_bedrock.Prelude.{◌==◌ as num_eq}
use Prim.Native.String.{String}
use text.Mathlib.Text.{◌==◌}
use text.Mathlib.TextEquality.{eq_iff}
use text.Mathlib.TextPositions.{eq_refl}
use tachyne_gw_bedrock.Scores.Board.{Objective, Board, lookup, insert, line, Text}
use tachyne_gw_bedrock.Scores.Frames.{ScoreFrame, shown, scored, score, score_of, override}
use tachyne_gw_bedrock.Scores.Client.{
  Lines, on_packets, find_entry, Distinct, line_of, lines_in, board_lines,
}
use tachyne_gw_bedrock.Scores.Redraw.{==-comm}
use tachyne_gw_bedrock.Scores.Tables.{
  lookup-insert, lookup-erase_ne, AllDistinct, lookup-Distinct, insert-AllDistinct, Alone,
  find_entry-id, find_entry-insert, find_entry-erase, insert-Distinct, erase-Distinct,
}

-- The client's lines are the board's, for every objective and id.
abbrev pub Drawn : (String → String → ℕ) → Board → Lines → Type 0
Drawn entry_id b c = (n : String) (i : ℕ) → c n i ≡ board_lines entry_id b n i

-- The condition on a score: its owner shares no entry id with another owner of the objective.
abbrev pub ScoreAlone : (String → String → ℕ) → Option Objective → ScoreFrame → Type 0
ScoreAlone entry_id none e = Unit
ScoreAlone entry_id (some o) e = Alone entry_id e.objective e.owner o.scores

pub line-eq :
    (b b' : Board) (o o' : Objective) (owner : String)
    → b'.teams ≡ b.teams
    → lookup owner o'.display ≡ lookup owner o.display
    → line b' o' owner ≡ line b o owner
unfolding line
line-eq b b' o o' owner t d = rw (t, d) refl

module _ (entry_id : String → String → ℕ) (chat_colours : List (String × String))
    (team_colours : List String) where
  scored-Distinct :
      (e : ScoreFrame) (o : Objective)
      → Alone entry_id e.objective e.owner o.scores
      → Distinct entry_id e.objective o.scores
      → Distinct entry_id e.objective (scored entry_id chat_colours team_colours e o).scores
  unfolding scored
  scored-Distinct e o a d = elim (Bool-cases e.reset) [
    | inl h ↦ rw h (erase-Distinct entry_id e.objective e.owner o.scores a d)
    | inr h ↦ rw h (insert-Distinct entry_id e.objective e.owner e.points o.scores a d)
  ]

  -- The other owners keep their scores and their texts.
  scored-display :
      (e : ScoreFrame) (o : Objective) (a : String)
      → (e.owner == a) ≡ false
      → lookup a (scored entry_id chat_colours team_colours e o).display ≡ lookup a o.display
  unfolding scored
  scored-display e o a h = elim (Bool-cases e.reset) [
    | inl q ↦ rw q (lookup-erase_ne e.owner a o.display h)
    | inr q ↦ rw q (by_override e.display)
  ]
    where
      by_override :
          (t : Option Text)
          → lookup a (override entry_id chat_colours team_colours t e.owner o.display)
            ≡ lookup a o.display
      by_override none = lookup-erase_ne e.owner a o.display h
      by_override (some t) = lookup-insert e.owner a _ o.display ∙ rw h refl

  scored-find_entry :
      (e : ScoreFrame) (o : Objective) (i : ℕ)
      → Alone entry_id e.objective e.owner o.scores
      → Distinct entry_id e.objective o.scores
      → find_entry entry_id e.objective i (scored entry_id chat_colours team_colours e o).scores ≡ (
          if num_eq i (entry_id e.objective e.owner)
          then (if e.reset then none else some (e.owner, e.points))
          else find_entry entry_id e.objective i o.scores)
  unfolding scored
  scored-find_entry e o i a d = elim (Bool-cases e.reset) [
    | inl q ↦ rw q (find_entry-erase entry_id e.objective e.owner i o.scores a d)
    | inr q ↦ rw q (find_entry-insert entry_id e.objective e.owner e.points i o.scores a)
  ]

  -- Off the score's own line, the objective's lines are the old ones.
  scored-lines :
      (e : ScoreFrame) (b b' : Board) (o : Objective) (i : ℕ)
      → b'.teams ≡ b.teams
      → Alone entry_id e.objective e.owner o.scores
      → Distinct entry_id e.objective o.scores
      → lines_in entry_id b' e.objective i (some (scored entry_id chat_colours team_colours e o))
        ≡ (if num_eq i (entry_id e.objective e.owner)
            then (if e.reset
                then none
                else some
                    (e.points, line b' (scored entry_id chat_colours team_colours e o) e.owner))
            else lines_in entry_id b e.objective i (some o))
  scored-lines e b b' o i t a d =
      let o' = scored entry_id chat_colours team_colours e o in
      ap (λ f. line_of entry_id b' o' f none) (scored-find_entry e o i a d)
      ∙ elim (Bool-cases (num_eq i (entry_id e.objective e.owner))) [
        | inl h ↦ rw h (elim (Bool-cases e.reset) [ inl q ↦ rw q refl | inr q ↦ rw q refl ])
        | inr h ↦ rw h (by_entry (find_entry entry_id e.objective i o.scores) refl h)
      ]
    where
      by_entry :
          (f : Option (String × ℕ))
          → find_entry entry_id e.objective i o.scores ≡ f
          → num_eq i (entry_id e.objective e.owner) ≡ false
          → line_of entry_id b' (scored entry_id chat_colours team_colours e o) f none
            ≡ line_of entry_id b o f none
      by_entry none q h = refl
      by_entry (some (other, points)) q h =
          let apart : (e.owner == other) ≡ false = elim (Bool-cases (e.owner == other)) [
            | inl r ↦
                let same : i ≡ entry_id e.objective e.owner =
                  find_entry-id entry_id e.objective i o.scores other points q
                  ∙ ap (entry_id e.objective) (sym ((eq_iff e.owner other).0 r)) in
                cc ((==_iff i (entry_id e.objective e.owner)).1 same, h)
            | inr r ↦ r
          ] in
          ap (λ s. some (points, s))
            (line-eq b b' o (scored entry_id chat_colours team_colours e o) other t
              (scored-display e o other apart))

  pub lines_in-eq :
      (b b' : Board) (n : String) (i : ℕ) (found : Option Objective)
      → b'.teams ≡ b.teams
      → lines_in entry_id b' n i found ≡ lines_in entry_id b n i found
  lines_in-eq b b' n i none t = refl
  lines_in-eq b b' n i (some o) t = by_entry (find_entry entry_id n i o.scores)
    where
      by_entry :
          (f : Option (String × ℕ)) → line_of entry_id b' o f none ≡ line_of entry_id b o f none
      by_entry none = refl
      by_entry (some (owner, points)) = ap (λ s. some (points, s)) (line-eq b b' o o owner t refl)

  score_of-keeps :
      (found : Option Objective) (e : ScoreFrame) (b : Board) (c : Lines)
      → lookup e.objective b.objectives ≡ found
      → ScoreAlone entry_id found e
      → AllDistinct entry_id b.objectives
      → Drawn entry_id b c
      → let (b', ps) = score_of entry_id chat_colours team_colours found e b in
        AllDistinct entry_id b'.objectives × Drawn entry_id b' (on_packets ps c)
  unfolding board_lines
  score_of-keeps none e b c q a d r = (d, r)
  score_of-keeps (some o) e b c q a d r =
      let distinct = lookup-Distinct entry_id b.objectives e.objective o d q in
      let o' = scored entry_id chat_colours team_colours e o in
      let b' = record b { objectives = insert e.objective o' b.objectives } in
      (
        insert-AllDistinct entry_id b.objectives e.objective o' d (scored-Distinct e o a distinct),
        λ n i. elim (Bool-cases (e.objective == n)) [
          | inl h ↦
              subst
                (λ m.
                  on_packets (score_of entry_id chat_colours team_colours (some o) e b).1 c m i
                  ≡ board_lines entry_id b' m i)
                ((eq_iff e.objective n).0 h) (here i)
          | inr h ↦ other n i h
        ],
      )
    where
      o' : Objective
      o' = scored entry_id chat_colours team_colours e o

      b' : Board
      b' = record b { objectives = insert e.objective o' b.objectives }

      here :
          (i : ℕ)
          → on_packets (score_of entry_id chat_colours team_colours (some o) e b).1 c e.objective i
            ≡ board_lines entry_id b' e.objective i
      here i = elim (Bool-cases (shown e.objective b.slots)) [
        | inl s ↦
            let stored : lookup e.objective b'.objectives ≡ some o' =
              lookup-insert e.objective e.objective o' b.objectives
              ∙ rw (eq_refl e.objective) refl in
            let was : c e.objective i ≡ lines_in entry_id b e.objective i (some o) =
              r e.objective i ∙ rw (s, q) refl in
            let new_lines =
              scored-lines e b b' o i refl a
                (lookup-Distinct entry_id b.objectives e.objective o d q) in
            rw (s, eq_refl e.objective, stored, new_lines, was) refl
        | inr s ↦ rw s (r e.objective i ∙ rw s refl)
      ]

      other :
          (n : String) (i : ℕ)
          → (e.objective == n) ≡ false
          → on_packets (score_of entry_id chat_colours team_colours (some o) e b).1 c n i
            ≡ board_lines entry_id b' n i
      other n i h =
          let kept : lookup n b'.objectives ≡ lookup n b.objectives =
            lookup-insert e.objective n o' b.objectives ∙ rw h refl in
          let same : c n i ≡ (
              if shown n b.slots then lines_in entry_id b' n i (lookup n b.objectives) else none) =
            r n i ∙ rw (lines_in-eq b b' n i (lookup n b.objectives) refl) refl in
          elim (Bool-cases (shown e.objective b.slots)) [
            | inl s ↦ rw (s, ==-comm n e.objective, h, kept) same
            | inr s ↦ rw (s, kept) same
          ]

  pub score-keeps :
      (e : ScoreFrame) (b : Board) (c : Lines)
      → ScoreAlone entry_id (lookup e.objective b.objectives) e
      → AllDistinct entry_id b.objectives
      → Drawn entry_id b c
      → let (b', ps) = score entry_id chat_colours team_colours e b in
        AllDistinct entry_id b'.objectives × Drawn entry_id b' (on_packets ps c)
  unfolding score
  score-keeps e b c a d r = score_of-keeps (lookup e.objective b.objectives) e b c refl a d r
