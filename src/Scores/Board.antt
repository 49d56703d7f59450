-- ===== src/Scores/Board.antt =====
-- internal/gw/scoreboard.go: the state of the scoreboard and the texts of its lines.
use tachyne_gw_bedrock.Prelude.{
  ℕ, Bool, true, false, List, [], ◌∷◌, Option, none, some, if◌then◌else◌,
}
use Prim.Native.String.{String, ◌++◌}
use text.Mathlib.Text.{◌==◌}

-- The Java display slots that Bedrock has a twin for (javaSlots), under their Bedrock names.
pub data Slot : Type 0 where
  list_slot sidebar_slot below_name_slot : Slot

abbrev pub same_slot : Slot → Slot → Bool
same_slot list_slot list_slot = true
same_slot sidebar_slot sidebar_slot = true
same_slot below_name_slot below_name_slot = true
same_slot _ _ = false

-- sbObjective, sbTeam and scoreboard.
pub record Objective : Type 0 where
  pub title : String
  pub hearts : Bool
  pub scores : List (String × ℕ)
  pub display : List (String × String)

pub record Team : Type 0 where
  pub prefix : String
  pub suffix : String
  pub colour : String
  pub players : List String

pub record Board : Type 0 where
  pub objectives : List (String × Objective)
  pub slots : List (Slot × String)
  pub teams : List (String × Team)

-- Go maps: keys once each, in some order.
module _ {κ} {V : Type κ} where
  unfoldable pub lookup : String → List (String × V) → Option V
  lookup name [] = none
  lookup name ((key, entry) ∷ table) = if key == name then some entry else lookup name table

  unfoldable pub erase : String → List (String × V) → List (String × V)
  erase name [] = []
  erase name ((key, entry) ∷ table) = if key == name then table else (key, entry) ∷ erase name table

  unfoldable pub insert : String → V → List (String × V) → List (String × V)
  insert name entry [] = (name, entry) ∷ []
  insert name entry ((key, old) ∷ table) =
      if key == name then (name, entry) ∷ table else (key, old) ∷ insert name entry table

-- players is a set.
unfoldable pub has_player : String → List String → Bool
has_player p [] = false
has_player p (q ∷ qs) = if p == q then true else has_player p qs

unfoldable pub add_players : List String → List String → List String
unfolding has_player
add_players [] ps = ps
add_players (q ∷ qs) ps = add_players qs (if has_player q ps then ps else q ∷ ps)

unfoldable pub drop_player : String → List String → List String
drop_player q [] = []
drop_player q (p ∷ ps) = if q == p then ps else p ∷ drop_player q ps

unfoldable pub drop_players : List String → List String → List String
unfolding drop_player
drop_players [] ps = ps
drop_players (q ∷ qs) ps = drop_players qs (drop_player q ps)

-- newScoreboard
abbrev pub new_board : Board
new_board = record { objectives = []; slots = []; teams = [] }

abbrev pub new_objective : Objective
new_objective = record { title = ""; hearts = false; scores = []; display = [] }

-- decorateAs: the first team that has the owner. The code walks the map in an order of its own each time; the teams here are
-- in one of them, and Scores.Reach has what does not hang on it.
unfoldable pub decorate_as : List (String × Team) → String → String → String
unfolding has_player
decorate_as [] owner shown = shown
decorate_as ((name, t) ∷ teams) owner shown =
    if has_player owner t.players
    then t.colour ++ (t.prefix ++ (shown ++ t.suffix))
    else decorate_as teams owner shown

abbrev shown_as : Option String → String → String
shown_as none owner = owner
shown_as (some d) owner = d

-- line, with decorate where the score has no name of its own.
unfoldable pub line : Board → Objective → String → String
unfolding decorate_as lookup
line b o owner = decorate_as b.teams owner (shown_as (lookup owner o.display) owner)

-- attach.Text
mutual
  pub data Text : Type 0 where
    text_of : String → String → String → String → Texts → Text

  pub data Texts : Type 0 where
    no_texts : Texts
    texts : Text → Texts → Texts

abbrev or_empty : Option String → String
or_empty none = ""
or_empty (some s) = s

abbrev own_text : String → String → String → String
own_text translate fallback literal =
    if translate == "" then literal else if fallback == "" then translate else fallback

-- plainText, over the table of chatColours.
module _ (chat_colours : List (String × String)) where
  unfoldable mutual
    unfolding lookup

    pub plain_text : Text → String
    plain_text (text_of colour translate fallback literal extra) =
        (or_empty (lookup colour chat_colours) ++ own_text translate fallback literal)
        ++ plain_texts extra

    pub plain_texts : Texts → String
    plain_texts no_texts = ""
    plain_texts (texts t ts) = plain_text t ++ plain_texts ts
