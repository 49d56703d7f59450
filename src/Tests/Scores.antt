-- ===== src/Tests/Scores.antt =====
-- Runs of the scoreboard.
use tachyne_gw_bedrock.Prelude.{
  subst, sym, ◌∙◌, zero, suc, ℕ, ◌≡◌, refl, true, false, List, [], ◌∷◌, none, some, arith,
}
use Prim.Native.Char.{code}
use mathlib.Core.Option.{some-injective}
use Prim.Native.String.{String}
use tachyne_gw_bedrock.Scores.Board.{
  Team, list_slot, sidebar_slot, Board, new_board, lookup, insert, line, decorate_as, has_player,
  add_players, text_of, no_texts, plain_text,
}
use tachyne_gw_bedrock.Scores.Frames.{
  set_display, set_score, ObjectiveFrame, ScoreFrame, TeamFrame, TeamMethod, find_slot, set_slot,
  drop_slot, shown, objective, score, scored, team, retold, redraw, display, display_in, replaced,
  show_in, show_named, entries_of,
}
use tachyne_gw_bedrock.Scores.Client.{Lines, on_packets}
use tachyne_gw_bedrock.Scores.Scored.{Drawn, ScoreAlone}
use tachyne_gw_bedrock.Scores.Displayed.{LeavesAll}
use tachyne_gw_bedrock.Scores.Reach.{
  start, next, objective_frame, score_frame, display_frame, team_frame, OneTeam, InAnyOrder,
  reached-Drawn,
}
use tachyne_gw_bedrock.Scores.Lost.{display_in-lost}

-- A number for an owner in place of the hash of both names.
owner_id : String → String → ℕ
owner_id name String.[] = 0
owner_id name (String.◌∷◌ c s) = code c

abbrev colours : List (String × String)
colours = ("red", "<red>") ∷ []

abbrev dyes : List String
dyes = "<0>" ∷ "<1>" ∷ []

abbrev kills : ObjectiveFrame
kills = record { removes = false; name = "kills"; title = "Kills"; hearts = false }

abbrev anns : ScoreFrame
anns = record { objective = "kills"; owner = "ann"; points = 3; reset = false; display = none }

abbrev bobs : ScoreFrame
bobs = record {
  objective = "kills";
  owner = "bob";
  points = 5;
  reset = false;
  display = some (text_of "red" "" "" "Bob" no_texts);
}

abbrev blues : TeamFrame
blues = record {
  method = TeamMethod.add_team;
  name = "blue";
  prefix = "[";
  suffix = "]";
  colour = 1;
  players = "bob" ∷ [];
}

abbrev first : Board
first = (objective owner_id colours dyes kills new_board).0

abbrev second : Board
second = (display owner_id colours dyes (some sidebar_slot) "kills" first).0

abbrev third : Board
third = (score owner_id colours dyes anns second).0

abbrev fourth : Board
fourth = (score owner_id colours dyes bobs third).0

-- A score with its own name updates one line.
bob_scored :
    (score owner_id colours dyes bobs third).1
    ≡ set_score (
        record { id = b'b'; objective = "kills"; score = 5; removed = false; text = "<red>Bob" }
        ∷ [])
      ∷ []
unfolding score scored objective display_in replaced show_named show_in entries_of line decorate_as
    plain_text find_slot set_slot shown lookup insert owner_id
bob_scored = refl

-- A team redraws the objective with its colour and prefix.
blue_drawn :
    (team owner_id colours dyes blues fourth).1
    ≡ set_display sidebar_slot "kills" "Kills"
      ∷ set_score (
          record { id = b'a'; objective = "kills"; score = 3; removed = false; text = "ann" }
          ∷ record {
            id = b'b';
            objective = "kills";
            score = 5;
            removed = false;
            text = "<1>[<red>Bob]";
          }
          ∷ [])
      ∷ []
unfolding team retold redraw score scored objective display_in replaced show_named show_in
    entries_of line decorate_as plain_text find_slot set_slot shown lookup insert owner_id
    has_player add_players
blue_drawn = refl

abbrev c0 : Lines
c0 n i = none

abbrev c1 : Lines
c1 = on_packets (objective owner_id colours dyes kills new_board).1 c0

abbrev c2 : Lines
c2 = on_packets (display owner_id colours dyes (some sidebar_slot) "kills" first).1 c1

abbrev c3 : Lines
c3 = on_packets (score owner_id colours dyes anns second).1 c2

abbrev c4 : Lines
c4 = on_packets (score owner_id colours dyes bobs third).1 c3

leaves : LeavesAll sidebar_slot "kills" first
unfolding objective show_named insert lookup find_slot
leaves prev e h = cc e

ann_alone : ScoreAlone owner_id (lookup "kills" second.objectives) anns
unfolding objective display_in show_in insert lookup
ann_alone = tt

bob_alone : ScoreAlone owner_id (lookup "kills" third.objectives) bobs
unfolding objective display_in show_in insert lookup score scored owner_id
bob_alone = (λ h. absurd (omega arith), tt)

abbrev fifth : Board
fifth = (team owner_id colours dyes blues fourth).0

abbrev c5 : Lines
c5 = on_packets (team owner_id colours dyes blues fourth).1 c4

one_team : (b : Team) (name : String) → OneTeam owner_id colours dyes ((name, b) ∷ [])
one_team b name zero zero s t owner e e' h h' = some-injective s t (sym e ∙ e')
one_team b name zero (suc j) s t owner e e' h h' = cc
one_team b name (suc i) j s t owner e e' h h' = cc

abbrev blue_team : Team
blue_team = record { prefix = "["; suffix = "]"; colour = "<1>"; players = "bob" ∷ [] }

fifth_teams : fifth.teams ≡ ("blue", blue_team) ∷ []
unfolding team retold redraw score scored objective display_in replaced show_named show_in
    entries_of line decorate_as plain_text find_slot set_slot shown lookup insert owner_id
    has_player add_players
fifth_teams = refl

reached-Drawn_example : Drawn owner_id fifth c5 × InAnyOrder owner_id colours dyes fifth.teams
reached-Drawn_example =
    reached-Drawn owner_id colours dyes fifth c5
      (next
        (next
          (next
            (next (next start (objective_frame new_board c0 kills))
              (display_frame first c1 sidebar_slot "kills" leaves))
            (score_frame second c2 anns ann_alone))
          (score_frame third c3 bobs bob_alone))
        (team_frame fourth c4 blues))
      (subst (OneTeam owner_id colours dyes) (sym fifth_teams) (one_team blue_team "blue"))

-- One objective in two slots.
abbrev twice : Board
twice = record {
  objectives = [];
  slots = (list_slot, "kills") ∷ (sidebar_slot, "kills") ∷ [];
  teams = [];
}

in_sidebar : find_slot sidebar_slot twice.slots ≡ some "kills"
unfolding find_slot
in_sidebar = refl

in_list : shown "kills" (drop_slot sidebar_slot twice.slots) ≡ true
unfolding shown drop_slot
in_list = refl

display_in-lost_example :
    (shown "kills" (display_in owner_id colours dyes sidebar_slot "deaths" twice).0.slots ≡ true)
    × ((i : ℕ)
        → on_packets (display_in owner_id colours dyes sidebar_slot "deaths" twice).1 c4 "kills" i
          ≡ none)
display_in-lost_example =
    display_in-lost owner_id colours dyes sidebar_slot "deaths" "kills" twice c4 in_sidebar refl
      refl in_list tt
