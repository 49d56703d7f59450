-- ===== src/Books.antt =====
-- internal/gw/books.go: editPages, one Bedrock edit of a book's pages.
pub mod Content
pub mod Edits
pub mod Pages
use tachyne_gw_bedrock.Prelude.{
  ℕ, zero, suc, ◌+◌, ◌-◌, Bool, true, false, not, List, [], ◌∷◌, ◌++◌, Option, none, some, ◌&&◌,
  ◌||◌, if◌then◌else◌, ltb, leb, lt_i32, length, get_or, set, take, drop, replicate,
}

-- packet.BookAction…, with `other` for any other number.
pub data BookAction : Type 0 where
  replace_page add_page delete_page swap_pages sign other : BookAction

-- A page's text is only stored and tested for blankness (strings.TrimSpace leaves nothing of it).
module _ {P : Type 0} (empty : P) (blank : P → Bool) where
  -- The first loop: pages are added up to the edited one.
  unfoldable pub pad_to : ℕ → List P → List P
  pad_to page pages = pages ++ replicate (page - length pages) empty

  -- out[:page] followed by out[page+1:]
  abbrev pub without : ℕ → List P → List P
  without page pages = take page pages ++ drop (page + 1) pages

  -- The last loop: trailing blank pages fall off.
  abbrev pub keep : P → List P → List P
  keep p [] = if blank p then [] else p ∷ []
  keep p (q ∷ ps) = p ∷ q ∷ ps

  unfoldable pub trim : List P → List P
  trim [] = []
  trim (p ∷ ps) = keep p (trim ps)

  -- The switch on the action. Page numbers are ints, read from int32 patterns.
  unfoldable pub edit : List P → BookAction → ℕ → ℕ → P → Option (List P)
  unfolding pad_to
  edit pages BookAction.replace_page page page2 text =
      let out = pad_to page pages in
      some
        (if ltb page (length out) then set out page text else take page out ++ text ∷ drop page out)
  edit pages BookAction.add_page page page2 text =
      let out = pad_to page pages in some (take page out ++ text ∷ drop page out)
  edit pages BookAction.delete_page page page2 text =
      if leb (length pages) page then none else some (without page pages)
  edit pages BookAction.swap_pages page page2 text =
      if leb (length pages) page || (lt_i32 page2 0 || leb (length pages) page2)
      then none
      else some (set (set pages page (get_or pages page2 empty)) page2 (get_or pages page empty))
  edit pages BookAction.sign page page2 text = some pages
  edit pages BookAction.other page page2 text = none

  abbrev pub trimmed : Option (List P) → Option (List P)
  trimmed none = none
  trimmed (some pages) = some (trim pages)

  -- editPages: none where the code answers false.
  unfoldable pub edit_pages : List P → BookAction → ℕ → ℕ → P → Option (List P)
  unfolding edit trim
  edit_pages pages action page page2 text =
      if lt_i32 page 0 || leb 100 page then none else trimmed (edit pages action page page2 text)
