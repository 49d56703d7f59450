-- ===== src/Scores/Kept.antt =====
-- Objectives, slots and teams folded into the board and into the client's lines (internal/gw/scoreboard.go).
use tachyne_gw_bedrock.Prelude.{
  ℕ, ◌≡◌, refl, subst, sym, ap, ◌∙◌, false, List, [], ◌∷◌, Option, none, some, ◌&&◌, if◌then◌else◌,
  Bool-cases, inl, inr, arith,
}
use Prim.Native.String.{String}
use text.Mathlib.Text.{◌==◌}
use text.Mathlib.TextEquality.{eq_iff}
use tachyne_gw_bedrock.Scores.Board.{Slot, Objective, Team, Board, lookup, insert, erase}
use tachyne_gw_bedrock.Scores.Frames.{
  ObjectiveFrame, TeamFrame, remove_objective, shown, or_new, objective, unbind, unbound, retold,
  retell, team,
}
use tachyne_gw_bedrock.Scores.Client.{
  Lines, on_packet, on_packets, find_entry, Distinct, line_of, lines_in, board_lines,
}
use tachyne_gw_bedrock.Scores.Redraw.{
  IdsDistinct, over, Overwritten, redrawn_same, on_redraw, on_redraw_unshown, ==-comm,
}
use tachyne_gw_bedrock.Scores.Tables.{
  lookup-insert, lookup-erase_ne, AllDistinct, lookup-Distinct, insert-AllDistinct,
  erase-AllDistinct,
}
use tachyne_gw_bedrock.Scores.Scored.{Drawn, lines_in-eq, line-eq}

module _ (entry_id : String → String → ℕ) (chat_colours : List (String × String))
    (team_colours : List String) where
  -- A board whose objectives have the same scores and texts has the same lines.
  pub or_new-Distinct :
      (name : String) (b : Board)
      → AllDistinct entry_id b.objectives
      → Distinct entry_id name
          (or_new entry_id chat_colours team_colours (lookup name b.objectives)).scores
  or_new-Distinct name b d = by_found (lookup name b.objectives) refl
    where
      by_found :
          (found : Option Objective)
          → lookup name b.objectives ≡ found
          → Distinct entry_id name (or_new entry_id chat_colours team_colours found).scores
      by_found none q = tt
      by_found (some o) q = lookup-Distinct entry_id b.objectives name o d q

  retitled : ObjectiveFrame → Option Objective → Objective
  retitled e found = record (or_new entry_id chat_colours team_colours found) {
    title = e.title;
    hearts = e.hearts;
  }

  retitled-lines :
      (e : ObjectiveFrame) (b b' : Board) (n : String) (i : ℕ) (found : Option Objective)
      → b'.teams ≡ b.teams
      → lines_in entry_id b' n i (some (retitled e found)) ≡ lines_in entry_id b n i found
  unfolding retitled
  retitled-lines e b b' n i none t = unfold find_entry in refl
  retitled-lines e b b' n i (some o) t = by_entry (find_entry entry_id n i o.scores)
    where
      by_entry :
          (f : Option (String × ℕ))
          → line_of entry_id b' (retitled e (some o)) f none ≡ line_of entry_id b o f none
      by_entry none = refl
      by_entry (some (owner, points)) =
          ap (λ s. some (points, s)) (line-eq b b' o (retitled e (some o)) owner t refl)

  -- A new title leaves the lines as they are.
  insert-board_lines :
      (e : ObjectiveFrame) (b : Board) (n : String) (i : ℕ)
      → board_lines entry_id
          (record b {
            objectives = insert e.name (retitled e (lookup e.name b.objectives)) b.objectives;
          })
          n
          i
        ≡ board_lines entry_id b n i
  unfolding board_lines
  insert-board_lines e b n i =
      let o = retitled e (lookup e.name b.objectives) in
      let b' = record b { objectives = insert e.name o b.objectives } in
      let found : lookup n b'.objectives ≡ (if e.name == n then some o else lookup n b.objectives) =
        lookup-insert e.name n o b.objectives in
      let same : lines_in entry_id b' n i (lookup n b'.objectives)
          ≡ lines_in entry_id b n i (lookup n b.objectives) =
        ap (lines_in entry_id b' n i) found ∙ elim (Bool-cases (e.name == n)) [
          | inl h ↦ rw h (
              retitled-lines e b b' n i (lookup e.name b.objectives) refl
              ∙ ap (λ k. lines_in entry_id b n i (lookup k b.objectives)) ((eq_iff e.name n).0 h))
          | inr h ↦
              rw h (
                lines_in-eq entry_id chat_colours team_colours b b' n i (lookup n b.objectives)
                  refl)
        ] in
      ap (λ l. if shown n b.slots then l else none) same

  pub shown-unbind_self :
      (name : String) (slots : List (Slot × String))
      → shown name (unbind entry_id chat_colours team_colours name slots) ≡ false
  unfolding shown unbind
  shown-unbind_self name [] = refl
  shown-unbind_self name ((slot, m) ∷ slots) = elim (Bool-cases (m == name)) [
    | inl h ↦ rw h (shown-unbind_self name slots)
    | inr h ↦ rw (h, shown-unbind_self name slots) (rw h refl)
  ]

  pub shown-unbind_ne :
      (n name : String) (slots : List (Slot × String))
      → (name == n) ≡ false
      → shown n (unbind entry_id chat_colours team_colours name slots) ≡ shown n slots
  unfolding shown unbind
  shown-unbind_ne n name [] h = refl
  shown-unbind_ne n name ((slot, m) ∷ slots) h =
      ground (arith, eq_iff m name, eq_iff m n, eq_iff name n, shown-unbind_ne n name slots)

  on_unbound :
      (name : String) (slots : List (Slot × String)) (c : Lines) (n : String) (i : ℕ)
      → on_packets (unbound entry_id chat_colours team_colours name slots) c n i
        ≡ (if n == name && shown name slots then none else c n i)
  unfolding shown unbound
  on_unbound name [] c n i = ground arith
  on_unbound name ((slot, m) ∷ slots) c n i = elim (Bool-cases (m == name)) [
    | inl h ↦ rw h (on_unbound name slots (on_packet (remove_objective name) c) n i ∙ ground arith)
    | inr h ↦ rw h (on_unbound name slots c n i)
  ]

  pub lookup-IdsDistinct : (b : Board) → AllDistinct entry_id b.objectives → IdsDistinct entry_id b
  lookup-IdsDistinct b d name o q = lookup-Distinct entry_id b.objectives name o d q

  removed-lines :
      (name : String) (b : Board) (n : String) (i : ℕ)
      → (if n == name && shown name b.slots then none else board_lines entry_id b n i)
        ≡ board_lines entry_id
            (record b {
              objectives = erase name b.objectives;
              slots = unbind entry_id chat_colours team_colours name b.slots;
            })
            n
            i
  unfolding board_lines
  removed-lines name b n i = elim (Bool-cases (n == name)) [
    | inl h ↦
        let gone : shown n (unbind entry_id chat_colours team_colours name b.slots) ≡ false =
          ap (λ k. shown k (unbind entry_id chat_colours team_colours name b.slots))
            ((eq_iff n name).0 h)
          ∙ shown-unbind_self name b.slots in
        let same : shown n b.slots ≡ shown name b.slots =
          ap (λ k. shown k b.slots) ((eq_iff n name).0 h) in
        rw (gone, h, same) (ground arith)
    | inr h ↦
        let apart : (name == n) ≡ false = ==-comm name n ∙ h in
        rw (h, shown-unbind_ne n name b.slots apart, lookup-erase_ne name n b.objectives apart)
          (ap (λ l. if shown n b.slots then l else none)
            (sym (
              lines_in-eq entry_id chat_colours team_colours b
                (record b {
                  objectives = erase name b.objectives;
                  slots = unbind entry_id chat_colours team_colours name b.slots;
                })
                n i (lookup n b.objectives) refl)))
  ]

  pub objective-keeps :
      (e : ObjectiveFrame) (b : Board) (c : Lines)
      → AllDistinct entry_id b.objectives
      → Drawn entry_id b c
      → let (b', ps) = objective entry_id chat_colours team_colours e b in
        AllDistinct entry_id b'.objectives × Drawn entry_id b' (on_packets ps c)
  unfolding objective retitled
  objective-keeps e b c d r = elim (Bool-cases e.removes) [
    | inl h ↦ rw h (
      erase-AllDistinct entry_id b.objectives e.name d,
      λ n i. on_unbound e.name b.slots c n i ∙ rw (r n i) (removed-lines e.name b n i),
    )
    | inr h ↦
        let o = retitled e (lookup e.name b.objectives) in
        let b' = record b { objectives = insert e.name o b.objectives } in
        let d' = insert-AllDistinct entry_id b.objectives e.name o d (or_new-Distinct e.name b d) in
        rw h (
          d',
          λ n i.
              redrawn_same entry_id chat_colours team_colours b' e.name c n i
                (lookup-IdsDistinct b' d') (r n i ∙ sym (insert-board_lines e b n i)),
        )
  ]

  -- Lines that the old teams dress are overwritten by lines that the new ones dress.
  dressed-Overwritten :
      (b b' : Board) (n : String) (i : ℕ)
      → b'.objectives ≡ b.objectives
      → Overwritten entry_id chat_colours team_colours b' n i
          (lines_in entry_id b n i (lookup n b.objectives))
  dressed-Overwritten b b' n i e =
      by_found (lookup n b'.objectives) (lookup n b.objectives) (ap (lookup n) e)
    where
      by_entry :
          (o : Objective) (f : Option (String × ℕ))
          → line_of entry_id b' o f (line_of entry_id b o f none) ≡ line_of entry_id b' o f none
      by_entry o none = refl
      by_entry o (some s) = refl

      by_found :
          (found old : Option Objective)
          → found ≡ old
          → over entry_id b' n i found (lines_in entry_id b n i old)
            ≡ lines_in entry_id b' n i found
      by_found none none q = refl
      by_found none (some o) q = cc
      by_found (some o) none q = cc
      by_found (some o) (some p) q =
          subst
            (λ (u : Option Objective).
              over entry_id b' n i (some o) (lines_in entry_id b n i u)
              ≡ lines_in entry_id b' n i (some o))
            q (by_entry o (find_entry entry_id n i o.scores))

  retell-keeps :
      (told : Option (List (String × Team))) (b : Board) (c : Lines)
      → AllDistinct entry_id b.objectives
      → Drawn entry_id b c
      → let (b', ps) = retell entry_id chat_colours team_colours told b in
        AllDistinct entry_id b'.objectives × Drawn entry_id b' (on_packets ps c)
  unfolding board_lines
  retell-keeps none b c d r = (d, r)
  retell-keeps (some teams) b c d r =
      let b' = record b { teams = teams } in
      (
        d,
        λ n i. elim (Bool-cases (shown n b.slots)) [
          | inl s ↦
              let was : c n i ≡ lines_in entry_id b n i (lookup n b.objectives) =
                r n i ∙ rw s refl in
              let w =
                subst (Overwritten entry_id chat_colours team_colours b' n i) (sym was)
                  (dressed-Overwritten b b' n i refl) in
              on_redraw entry_id chat_colours team_colours b' b.slots c n i
                (lookup-IdsDistinct b' d) s w
              ∙ rw s refl
          | inr s ↦
              on_redraw_unshown entry_id chat_colours team_colours b' b.slots c n i
                (lookup-IdsDistinct b' d) s
              ∙ r n i
              ∙ rw s refl
        ],
      )

  pub team-keeps :
      (e : TeamFrame) (b : Board) (c : Lines)
      → AllDistinct entry_id b.objectives
      → Drawn entry_id b c
      → let (b', ps) = team entry_id chat_colours team_colours e b in
        AllDistinct entry_id b'.objectives × Drawn entry_id b' (on_packets ps c)
  unfolding team
  team-keeps e b c d r =
      retell-keeps
        (retold entry_id chat_colours team_colours e.method e (lookup e.name b.teams) b.teams) b c d
        r
