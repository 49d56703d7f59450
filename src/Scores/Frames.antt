-- ===== src/Scores/Frames.antt =====
-- internal/gw/scoreboard.go: the world's frames, folded into the board, with the packets for the client.
use tachyne_gw_bedrock.Prelude.{
  ℕ, Bool, true, false, not, List, [], ◌∷◌, ◌++◌, Option, none, some, ◌&&◌, ◌||◌, if◌then◌else◌,
  get_or, length, ltb, lt_i32,
}
use Prim.Native.String.{String}
use text.Mathlib.Text.{◌==◌}
use tachyne_gw_bedrock.Scores.Board.{
  Slot, same_slot, Objective, Team, Board, lookup, insert, erase, add_players, drop_players,
  new_objective, line, Text, plain_text,
}

-- protocol.ScoreboardEntry; `removed` is the identity type of a removal.
pub record Entry : Type 0 where
  pub id : ℕ
  pub objective : String
  pub score : ℕ
  pub removed : Bool
  pub text : String

pub data Packet : Type 0 where
  set_display : Slot → String → String → Packet
  set_score : List Entry → Packet
  remove_objective : String → Packet

-- attach.Objective, attach.Score and attach.Team.
pub record ObjectiveFrame : Type 0 where
  pub removes : Bool
  pub name : String
  pub title : String
  pub hearts : Bool

pub record ScoreFrame : Type 0 where
  pub objective : String
  pub owner : String
  pub points : ℕ
  pub reset : Bool
  pub display : Option Text

pub data TeamMethod : Type 0 where
  add_team remove_team add_team_players remove_team_players update_team : TeamMethod

pub record TeamFrame : Type 0 where
  pub method : TeamMethod
  pub name : String
  pub prefix : String
  pub suffix : String
  pub colour : ℕ
  pub players : List String

-- The map of slots.
unfoldable pub find_slot : Slot → List (Slot × String) → Option String
find_slot s [] = none
find_slot s ((t, name) ∷ slots) = if same_slot t s then some name else find_slot s slots

unfoldable pub set_slot : Slot → String → List (Slot × String) → List (Slot × String)
set_slot s name [] = (s, name) ∷ []
set_slot s name ((t, old) ∷ slots) =
    if same_slot t s then (s, name) ∷ slots else (t, old) ∷ set_slot s name slots

unfoldable pub drop_slot : Slot → List (Slot × String) → List (Slot × String)
drop_slot s [] = []
drop_slot s ((t, old) ∷ slots) = if same_slot t s then slots else (t, old) ∷ drop_slot s slots

unfoldable pub shown : String → List (Slot × String) → Bool
shown name [] = false
shown name ((t, n) ∷ slots) = if n == name then true else shown name slots

-- entryID hashes the objective's name and the owner's; chatColours and teamColours are tables.
module _ (entry_id : String → String → ℕ) (chat_colours : List (String × String))
    (team_colours : List String) where
  unfoldable pub entries_of : Board → String → Objective → List (String × ℕ) → List Entry
  entries_of b name o [] = []
  entries_of b name o ((owner, points) ∷ scores) =
      record {
        id = entry_id name owner;
        objective = name;
        score = points;
        removed = false;
        text = line b o owner;
      }
      ∷ entries_of b name o scores

  abbrev pub or_name : String → String → String
  or_name title name = if title == "" then name else title

  abbrev pub score_packets : List Entry → List Packet
  score_packets [] = []
  score_packets (e ∷ es) = set_score (e ∷ es) ∷ []

  unfoldable pub show_in : Board → Slot → String → Objective → List Packet
  unfolding entries_of
  show_in b slot name o =
      set_display slot name (or_name o.title name) ∷ score_packets (entries_of b name o o.scores)

  -- showLocked, from the lookup on.
  unfoldable pub show_slots : Board → String → Objective → List (Slot × String) → List Packet
  unfolding show_in
  show_slots b name o [] = []
  show_slots b name o ((slot, n) ∷ slots) =
      (if n == name then show_in b slot name o else []) ++ show_slots b name o slots

  abbrev pub show_found : Board → String → Option Objective → List Packet
  show_found b name none = []
  show_found b name (some o) = show_slots b name o b.slots

  unfoldable pub show_named : Board → String → List Packet
  unfolding show_slots lookup
  show_named b name = show_found b name (lookup name b.objectives)

  -- The loop that takes a removed objective from its slots.
  unfoldable pub unbind : String → List (Slot × String) → List (Slot × String)
  unbind name [] = []
  unbind name ((slot, n) ∷ slots) =
      if n == name then unbind name slots else (slot, n) ∷ unbind name slots

  unfoldable pub unbound : String → List (Slot × String) → List Packet
  unbound name [] = []
  unbound name ((slot, n) ∷ slots) =
      if n == name then remove_objective name ∷ unbound name slots else unbound name slots

  abbrev pub or_new : Option Objective → Objective
  or_new none = new_objective
  or_new (some o) = o

  unfoldable pub objective : ObjectiveFrame → Board → Board × List Packet
  unfolding unbind unbound show_named insert erase lookup
  objective e b =
      let o = record (or_new (lookup e.name b.objectives)) { title = e.title; hearts = e.hearts } in
      let b' = record b { objectives = insert e.name o b.objectives } in
      if e.removes
      then (
        record b { objectives = erase e.name b.objectives; slots = unbind e.name b.slots },
        unbound e.name b.slots,
      )
      else (b', show_named b' e.name)

  -- What `display` takes off the slot first.
  unfoldable pub replaced : Option String → String → List Packet
  replaced none name = []
  replaced (some prev) name = if prev == "" || prev == name then [] else remove_objective prev ∷ []

  unfoldable pub display_in : Slot → String → Board → Board × List Packet
  unfolding replaced find_slot drop_slot set_slot show_in insert lookup
  display_in slot name b =
      let out = replaced (find_slot slot b.slots) name in
      let o = or_new (lookup name b.objectives) in
      let b' = record b {
        slots = set_slot slot name b.slots;
        objectives = insert name o b.objectives;
      } in
      if name == ""
      then (record b { slots = drop_slot slot b.slots }, out)
      else (b', out ++ show_in b' slot name o)

  -- A slot with no Bedrock twin is none.
  abbrev pub display : Option Slot → String → Board → Board × List Packet
  display none name b = (b, [])
  display (some slot) name b = display_in slot name b

  abbrev pub override : Option Text → String → List (String × String) → List (String × String)
  override none owner m = erase owner m
  override (some t) owner m = insert owner (plain_text chat_colours t) m

  unfoldable pub scored : ScoreFrame → Objective → Objective
  unfolding insert erase
  scored e o =
      if e.reset
      then record o { scores = erase e.owner o.scores; display = erase e.owner o.display }
      else record o {
        scores = insert e.owner e.points o.scores;
        display = override e.display e.owner o.display;
      }

  abbrev pub score_of : Option Objective → ScoreFrame → Board → Board × List Packet
  score_of none e b = (b, [])
  score_of (some o) e b =
      let o' = scored e o in
      let b' = record b { objectives = insert e.objective o' b.objectives } in
      let entry : Entry = record {
        id = entry_id e.objective e.owner;
        objective = e.objective;
        score = e.points;
        removed = e.reset;
        text = line b' o' e.owner;
      } in
      (b', if shown e.objective b.slots then set_score (entry ∷ []) ∷ [] else [])

  unfoldable pub score : ScoreFrame → Board → Board × List Packet
  unfolding scored shown insert lookup
  score e b = score_of (lookup e.objective b.objectives) e b

  abbrev blank_team : Team
  blank_team = record { prefix = ""; suffix = ""; colour = ""; players = [] }

  abbrev or_blank : Option Team → Team
  or_blank none = blank_team
  or_blank (some t) = t

  -- The colour is an int32.
  abbrev colour_of : ℕ → String
  colour_of c =
      if not (lt_i32 c 0) && ltb c (length team_colours) then get_or team_colours c "" else ""

  abbrev dressed : TeamFrame → Bool → Team → Team
  dressed e fresh t = record {
    prefix = e.prefix;
    suffix = e.suffix;
    colour = colour_of e.colour;
    players = add_players e.players (if fresh then [] else t.players);
  }

  -- The switch of `team`; none is its early return.
  unfoldable pub retold :
      TeamMethod → TeamFrame → Option Team → List (String × Team) → Option (List (String × Team))
  unfolding add_players drop_players insert erase
  retold TeamMethod.remove_team e t teams = some (erase e.name teams)
  retold TeamMethod.add_team_players e none teams = none
  retold TeamMethod.add_team_players e (some t) teams =
      some (insert e.name (record t { players = add_players e.players t.players }) teams)
  retold TeamMethod.remove_team_players e none teams = none
  retold TeamMethod.remove_team_players e (some t) teams =
      some (insert e.name (record t { players = drop_players e.players t.players }) teams)
  retold TeamMethod.add_team e t teams = some (insert e.name (dressed e true (or_blank t)) teams)
  retold TeamMethod.update_team e t teams =
      some (insert e.name (dressed e false (or_blank t)) teams)

  unfoldable pub redraw : Board → List (Slot × String) → List Packet
  unfolding show_named
  redraw b [] = []
  redraw b ((slot, name) ∷ slots) = show_named b name ++ redraw b slots

  abbrev pub retell : Option (List (String × Team)) → Board → Board × List Packet
  retell none b = (b, [])
  retell (some teams) b = let b' = record b { teams = teams } in (b', redraw b' b.slots)

  unfoldable pub team : TeamFrame → Board → Board × List Packet
  unfolding retold redraw lookup
  team e b = retell (retold e.method e (lookup e.name b.teams) b.teams) b
