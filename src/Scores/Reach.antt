-- ===== src/Scores/Reach.antt =====
-- The boards that a session comes to, and what its client has for them (internal/gw/scoreboard.go).
use tachyne_gw_bedrock.Prelude.{
  ℕ, ◌≡◌, refl, subst, ap, ◌∙◌, false, List, Option, none, some, true, [], ◌∷◌, get_elem?, zero,
  suc, Bool-cases, inl, inr,
}
use mathlib.Core.Option.{some-injective}
use Prim.Native.String.{String, ◌++◌}
use text.Mathlib.Text.{◌==◌}
use text.Mathlib.TextEquality.{eq_iff}
use tachyne_gw_bedrock.Scores.Board.{
  Slot, Team, Board, new_board, lookup, Objective, has_player, decorate_as,
}
use tachyne_gw_bedrock.Scores.Frames.{
  ObjectiveFrame, ScoreFrame, TeamFrame, objective, score, score_of, team, retell, display, shown,
  unbind,
}
use tachyne_gw_bedrock.Scores.Client.{Lines, on_packets, board_lines}
use tachyne_gw_bedrock.Scores.Tables.{AllDistinct}
use tachyne_gw_bedrock.Scores.Scored.{Drawn, ScoreAlone, score-keeps}
use tachyne_gw_bedrock.Scores.Kept.{shown-unbind_self, shown-unbind_ne, objective-keeps, team-keeps}
use tachyne_gw_bedrock.Scores.Displayed.{Named, LeavesAll, display_in-keeps}

module _ (entry_id : String → String → ℕ) (chat_colours : List (String × String))
    (team_colours : List String) where
  -- A frame of the world's, with the lines that the client had before and has after its packets.
  pub data Step : Board → Lines → Board → Lines → Type 0 where
    objective_frame :
        (b : Board) (c : Lines) (e : ObjectiveFrame)
        → Step b c
            (objective entry_id chat_colours team_colours e b).0
            (on_packets (objective entry_id chat_colours team_colours e b).1 c)
    score_frame :
        (b : Board) (c : Lines) (e : ScoreFrame)
        → ScoreAlone entry_id (lookup e.objective b.objectives) e
        → Step b c
            (score entry_id chat_colours team_colours e b).0
            (on_packets (score entry_id chat_colours team_colours e b).1 c)
    team_frame :
        (b : Board) (c : Lines) (e : TeamFrame)
        → Step b c
            (team entry_id chat_colours team_colours e b).0
            (on_packets (team entry_id chat_colours team_colours e b).1 c)
    display_frame :
        (b : Board) (c : Lines) (slot : Slot) (name : String)
        → LeavesAll slot name b
        → Step b c
            (display entry_id chat_colours team_colours (some slot) name b).0
            (on_packets (display entry_id chat_colours team_colours (some slot) name b).1 c)
    other_display :
        (b : Board) (c : Lines) (name : String)
        → Step b c
            (display entry_id chat_colours team_colours none name b).0
            (on_packets (display entry_id chat_colours team_colours none name b).1 c)

  abbrev pub no_lines : Lines
  no_lines n i = none

  pub data Reached : Board → Lines → Type 0 where
    start : Reached new_board no_lines
    next : {b b' : Board} {c c' : Lines} → Reached b c → Step b c b' c' → Reached b' c'

  -- What holds between two frames.
  record Held (b : Board) (c : Lines) : Type 0 where
    named : Named b
    distinct : AllDistinct entry_id b.objectives
    drawn : Drawn entry_id b c

  score_of-slots :
      (found : Option Objective) (e : ScoreFrame) (b : Board)
      → (score_of entry_id chat_colours team_colours found e b).0.slots ≡ b.slots
  score_of-slots none e b = refl
  score_of-slots (some o) e b = refl

  retell-slots :
      (told : Option (List (String × Team))) (b : Board)
      → (retell entry_id chat_colours team_colours told b).0.slots ≡ b.slots
  retell-slots none b = refl
  retell-slots (some teams) b = refl

  objective-Named :
      (e : ObjectiveFrame) (b : Board)
      → Named b
      → Named (objective entry_id chat_colours team_colours e b).0
  unfolding objective
  objective-Named e b named = elim (Bool-cases e.removes) [
    | inl h ↦ rw h (elim (Bool-cases (e.name == "")) [
      | inl q ↦
          subst (λ k. shown k (unbind entry_id chat_colours team_colours e.name b.slots) ≡ false)
            ((eq_iff e.name "").0 q)
            (shown-unbind_self entry_id chat_colours team_colours e.name b.slots)
      | inr q ↦ shown-unbind_ne entry_id chat_colours team_colours "" e.name b.slots q ∙ named
    ])
    | inr h ↦ rw h named
  ]

  Step-Held : {b b' : Board} {c c' : Lines} → Step b c b' c' → Held b c → Held b' c'
  unfolding score team
  Step-Held (objective_frame b c e) h =
      let (d, r) = objective-keeps entry_id chat_colours team_colours e b c h.distinct h.drawn in
      record { named = objective-Named e b h.named; distinct = d; drawn = r }
  Step-Held (score_frame b c e a) h =
      let (d, r) = score-keeps entry_id chat_colours team_colours e b c a h.distinct h.drawn in
      record {
        named = ap (shown "") (score_of-slots (lookup e.objective b.objectives) e b) ∙ h.named;
        distinct = d;
        drawn = r;
      }
  Step-Held (team_frame b c e) h =
      let (d, r) = team-keeps entry_id chat_colours team_colours e b c h.distinct h.drawn in
      record { named = ap (shown "") (retell-slots _ b) ∙ h.named; distinct = d; drawn = r }
  Step-Held (display_frame b c slot name l) h =
      let (n, d, r) =
        display_in-keeps entry_id chat_colours team_colours slot name b c h.named l h.distinct
          h.drawn in
      record { named = n; distinct = d; drawn = r }
  Step-Held (other_display b c name) h = h

  Reached-Held : {b : Board} {c : Lines} → Reached b c → Held b c
  unfolding shown board_lines
  Reached-Held start = record { named = refl; distinct = tt; drawn = λ n i. refl }
  Reached-Held (next r s) = Step-Held s (Reached-Held r)

  -- No owner is in two teams.
  abbrev pub OneTeam : List (String × Team) → Type 0
  OneTeam teams =
      (i j : ℕ) (s t : String × Team) (owner : String)
      → get_elem? teams i ≡ some s
      → get_elem? teams j ≡ some t
      → has_player owner s.1.players ≡ true
      → has_player owner t.1.players ≡ true
      → s ≡ t

  -- The texts do not hang on the order in which the teams are walked: an owner's is that of any team which has the owner.
  abbrev pub InAnyOrder : List (String × Team) → Type 0
  InAnyOrder teams =
      (i : ℕ) (t : String × Team) (owner name : String)
      → get_elem? teams i ≡ some t
      → has_player owner t.1.players ≡ true
      → decorate_as teams owner name ≡ t.1.colour ++ (t.1.prefix ++ (name ++ t.1.suffix))

  OneTeam-InAnyOrder : (teams : List (String × Team)) → OneTeam teams → InAnyOrder teams
  unfolding decorate_as
  OneTeam-InAnyOrder [] one i t owner name e h = cc
  OneTeam-InAnyOrder ((key, first) ∷ teams) one zero t owner name e h =
      let met : (key, first) ≡ t = some-injective (key, first) t e in
      let q : has_player owner first.players ≡ true =
        ap (λ (u : String × Team). has_player owner u.1.players) met ∙ h in
      rw q (ap (λ (u : String × Team). u.1.colour ++ (u.1.prefix ++ (name ++ u.1.suffix))) met)
  OneTeam-InAnyOrder ((key, first) ∷ teams) one (suc i) t owner name e h =
      elim (Bool-cases (has_player owner first.players)) [
        | inl q ↦ rw q (
            ap (λ (u : String × Team). u.1.colour ++ (u.1.prefix ++ (name ++ u.1.suffix)))
              (one 0 (suc i) (key, first) t owner refl e q h))
        | inr q ↦ rw q (OneTeam-InAnyOrder teams (λ i j. one (suc i) (suc j)) i t owner name e h)
      ]

  -- After any frames of the world's, when no owner is in two teams, the client has for each objective that is shown
  -- exactly the lines that the board has, with their scores and with the texts that the display names and the teams give
  -- them now, whatever the order in which the code walks the teams, and no lines of any other objective; where no score's
  -- owner shares an entry id with another owner of its objective, and an objective that leaves a slot is shown in no
  -- other.
  pub reached-Drawn :
      (b : Board) (c : Lines)
      → Reached b c
      → OneTeam b.teams
      → Drawn entry_id b c × InAnyOrder b.teams
  reached-Drawn b c r one = ((Reached-Held r).drawn, OneTeam-InAnyOrder b.teams one)
