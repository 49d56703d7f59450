-- ===== src/Scores/Redraw.antt =====
-- What redrawing an objective does to the client's lines (internal/gw/scoreboard.go).
use tachyne_gw_bedrock.Prelude.{
  ℕ, ◌≡◌, refl, subst, sym, ap, ◌∙◌, Bool, true, false, List, [], ◌∷◌, Option, none, some, ◌&&◌,
  if◌then◌else◌, Bool-cases, inl, inr, arith,
}
use Prim.Native.String.{String}
use text.Mathlib.Text.{◌==◌}
use text.Mathlib.TextEquality.{eq_iff}
use tachyne_gw_bedrock.Scores.Board.{Slot, Objective, Board, lookup}
use tachyne_gw_bedrock.Scores.Frames.{shown, show_in, show_slots, show_found, show_named, redraw}
use tachyne_gw_bedrock.Scores.Client.{
  Lines, on_packets, on_packets-append, find_entry, Distinct, line_of, lines_in, board_lines, drawn,
  on_show_in,
}

pub ==-comm : (s t : String) → (s == t) ≡ (t == s)
==-comm s t = ground (arith, eq_iff s t, eq_iff t s)

module _ (entry_id : String → String → ℕ) where
  -- The ids of each objective's lines are distinct.
  abbrev pub IdsDistinct : Board → Type 0
  IdsDistinct b =
      (name : String) (o : Objective)
      → lookup name b.objectives ≡ some o
      → Distinct entry_id name o.scores

  -- The board's line over what the client had.
  abbrev pub over :
      Board → String → ℕ → Option Objective → Option (ℕ × String) → Option (ℕ × String)
  over b n i none old = old
  over b n i (some o) old = line_of entry_id b o (find_entry entry_id n i o.scores) old

  module _ (chat_colours : List (String × String)) (team_colours : List String) where
    abbrev after : Board → String → Lines → Lines
    after b name c = on_packets (show_named entry_id chat_colours team_colours b name) c

    drawn_twice :
        (b : Board) (name : String) (o : Objective) (c c' : Lines) (n : String) (i : ℕ)
        → c' n i ≡ drawn entry_id b name o o.scores c n i
        → drawn entry_id b name o o.scores c' n i ≡ drawn entry_id b name o o.scores c n i
    drawn_twice b name o c c' n i e = elim (Bool-cases (n == name)) [
      | inl h ↦ by_line (find_entry entry_id name i o.scores) refl h
      | inr h ↦ rw h (rw h at e)
    ]
      where
        by_line :
            (f : Option (String × ℕ))
            → find_entry entry_id name i o.scores ≡ f
            → (n == name) ≡ true
            → drawn entry_id b name o o.scores c' n i ≡ drawn entry_id b name o o.scores c n i
        by_line none q h = rw (h, q) (rw (h, q) at e)
        by_line (some s) q h = rw (h, q) refl

    on_show_slots :
        (b : Board) (name : String) (o : Objective) (slots : List (Slot × String)) (c : Lines)
        (n : String) (i : ℕ)
        → Distinct entry_id name o.scores
        → on_packets (show_slots entry_id chat_colours team_colours b name o slots) c n i
          ≡ (if shown name slots then drawn entry_id b name o o.scores c n i else c n i)
    unfolding show_slots shown
    on_show_slots b name o [] c n i d = refl
    on_show_slots b name o ((slot, m) ∷ slots) c n i d = elim (Bool-cases (m == name)) [
      | inl h ↦
          let first = show_in entry_id chat_colours team_colours b slot name o in
          let c' = on_packets first c in
          let rest = on_show_slots b name o slots c' n i d in
          rw h (
            ap (λ (l : Lines). l n i)
              (on_packets-append first
                (show_slots entry_id chat_colours team_colours b name o slots) c)
            ∙ rest
            ∙ again c' (shown name slots)
                (on_show_in entry_id chat_colours team_colours b slot name o c n i d))
      | inr h ↦ rw h (on_show_slots b name o slots c n i d)
    ]
      where
        again :
            (c' : Lines) (more : Bool)
            → c' n i ≡ drawn entry_id b name o o.scores c n i
            → (if more then drawn entry_id b name o o.scores c' n i else c' n i)
              ≡ drawn entry_id b name o o.scores c n i
        again c' true e = drawn_twice b name o c c' n i e
        again c' false e = e

    -- A redrawn objective has the board's lines if it is shown, and the others are as they were.
    pub on_show_named :
        (b : Board) (name : String) (c : Lines) (n : String) (i : ℕ)
        → IdsDistinct b
        → on_packets (show_named entry_id chat_colours team_colours b name) c n i ≡ (
            if n == name && shown name b.slots
            then over b n i (lookup n b.objectives) (c n i)
            else c n i)
    unfolding show_named
    on_show_named b name c n i d = by_found (lookup name b.objectives) refl
      where
        by_found :
            (found : Option Objective)
            → lookup name b.objectives ≡ found
            → on_packets (show_found entry_id chat_colours team_colours b name found) c n i ≡ (
                if n == name && shown name b.slots
                then over b n i (lookup n b.objectives) (c n i)
                else c n i)
        by_found none e = elim (Bool-cases (n == name)) [
          | inl h ↦ rw (h, ap (λ k. lookup k b.objectives) ((eq_iff n name).0 h) ∙ e) (ground arith)
          | inr h ↦ rw h refl
        ]
        by_found (some o) e =
            on_show_slots b name o b.slots c n i (d name o e) ∙ elim (Bool-cases (n == name)) [
              | inl h ↦
                  let same : over b n i (lookup n b.objectives) (c n i)
                      ≡ over b name i (some o) (c n i) =
                    ap (λ k. over b k i (lookup k b.objectives) (c n i)) ((eq_iff n name).0 h)
                    ∙ ap (λ found. over b name i found (c n i)) e in
                  rw (h, same) refl
              | inr h ↦ rw h (ground arith)
            ]

    -- Overwriting this with the board's line gives the board's line.
    abbrev pub Overwritten : Board → String → ℕ → Option (ℕ × String) → Type 0
    Overwritten b n i x =
        over b n i (lookup n b.objectives) x ≡ lines_in entry_id b n i (lookup n b.objectives)

    pub over_line :
        (b : Board) (n : String) (i : ℕ)
        → Overwritten b n i (lines_in entry_id b n i (lookup n b.objectives))
    over_line b n i = by_found (lookup n b.objectives)
      where
        by_found :
            (found : Option Objective)
            → over b n i found (lines_in entry_id b n i found) ≡ lines_in entry_id b n i found
        by_found none = refl
        by_found (some o) = by_entry (find_entry entry_id n i o.scores)
          where
            by_entry :
                (f : Option (String × ℕ))
                → line_of entry_id b o f (line_of entry_id b o f none) ≡ line_of entry_id b o f none
            by_entry none = refl
            by_entry (some s) = refl

    -- A redraw of an objective that is drawn already changes nothing.
    pub redrawn_same :
        (b : Board) (name : String) (c : Lines) (n : String) (i : ℕ)
        → IdsDistinct b
        → c n i ≡ board_lines entry_id b n i
        → on_packets (show_named entry_id chat_colours team_colours b name) c n i
          ≡ board_lines entry_id b n i
    unfolding board_lines
    redrawn_same b name c n i d e =
        on_show_named b name c n i d ∙ elim (Bool-cases (shown n b.slots)) [
          | inl h ↦
              let was : c n i ≡ lines_in entry_id b n i (lookup n b.objectives) = rw h at e in
              let full : over b n i (lookup n b.objectives) (c n i)
                  ≡ lines_in entry_id b n i (lookup n b.objectives) =
                ap (over b n i (lookup n b.objectives)) was ∙ over_line b n i in
              rw (h, full, was) (ground arith)
          | inr h ↦ elim (Bool-cases (n == name)) [
            | inl q ↦
                let unshown : shown name b.slots ≡ false =
                  ap (λ k. shown k b.slots) (sym ((eq_iff n name).0 q)) ∙ h in
                rw (q, unshown) e
            | inr q ↦ rw q e
          ]
        ]

    -- A redraw of the shown objectives in a list gives each of them its lines and leaves the others.
    pub on_redraw :
        (b : Board) (list : List (Slot × String)) (c : Lines) (n : String) (i : ℕ)
        → IdsDistinct b
        → shown n b.slots ≡ true
        → Overwritten b n i (c n i)
        → on_packets (redraw entry_id chat_colours team_colours b list) c n i
          ≡ (if shown n list then lines_in entry_id b n i (lookup n b.objectives) else c n i)
    unfolding redraw shown
    on_redraw b [] c n i d h w = refl
    on_redraw b ((slot, name) ∷ list) c n i d h w =
        let first = show_named entry_id chat_colours team_colours b name in
        let c' = on_packets first c in
        let now = on_show_named b name c n i d in
        ap (λ (l : Lines). l n i)
          (on_packets-append first (redraw entry_id chat_colours team_colours b list) c)
        ∙ elim (Bool-cases (name == n)) [
          | inl q ↦
              let drawn_now : c' n i ≡ lines_in entry_id b n i (lookup n b.objectives) =
                now
                ∙ rw (==-comm n name, q, ap (λ k. shown k b.slots) ((eq_iff name n).0 q) ∙ h) w in
              let w' : Overwritten b n i (c' n i) =
                ap (over b n i (lookup n b.objectives)) drawn_now ∙ over_line b n i in
              rw q (on_redraw b list c' n i d h w' ∙ rw drawn_now (ground arith))
          | inr q ↦
              let unchanged : c' n i ≡ c n i = now ∙ rw (==-comm n name, q) refl in
              let w' : Overwritten b n i (c' n i) = subst (Overwritten b n i) (sym unchanged) w in
              rw q (on_redraw b list c' n i d h w' ∙ rw unchanged refl)
        ]

    -- A redraw changes no line of an objective that is not shown.
    pub on_redraw_unshown :
        (b : Board) (list : List (Slot × String)) (c : Lines) (n : String) (i : ℕ)
        → IdsDistinct b
        → shown n b.slots ≡ false
        → on_packets (redraw entry_id chat_colours team_colours b list) c n i ≡ c n i
    unfolding redraw
    on_redraw_unshown b [] c n i d h = refl
    on_redraw_unshown b ((slot, name) ∷ list) c n i d h =
        let first = show_named entry_id chat_colours team_colours b name in
        ap (λ (l : Lines). l n i)
          (on_packets-append first (redraw entry_id chat_colours team_colours b list) c)
        ∙ on_redraw_unshown b list (on_packets first c) n i d h
        ∙ on_show_named b name c n i d
        ∙ elim (Bool-cases (n == name)) [
          | inl q ↦ rw (q, ap (λ k. shown k b.slots) (sym ((eq_iff n name).0 q)) ∙ h) refl
          | inr q ↦ rw q refl
        ]
