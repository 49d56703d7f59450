-- ===== src/Books/Edits.antt =====
-- internal/gw/books.go: the pages that editPages leaves.
use tachyne_gw_bedrock.Prelude.{
  ℕ, suc, ◌+◌, ◌-◌, ◌≤◌, ◌<◌, ◌≡◌, refl, inl, inr, Bool-cases, lt_i32, leb, get_or, ◌||◌, Bool,
  false, List, [], ◌∷◌, ◌++◌, Option, none, some, arith, length, set, take, drop, replicate,
  length-set, length-append, length-take, length-drop, length-replicate,
}
use mathlib.Core.Option.{some-injective}
use tachyne_gw_bedrock.Books.{BookAction, pad_to, keep, without, trim, trimmed, edit, edit_pages}

module _ {P : Type 0} (empty : P) (blank : P → Bool) where
  -- A list of pages that does not end in a blank one.
  abbrev pub EndsInText : List P → Type 0
  EndsInText [] = Unit {0}
  EndsInText (p ∷ []) = blank p ≡ false
  EndsInText (p ∷ q ∷ ps) = EndsInText (q ∷ ps)

  keep-EndsInText : (p : P) (ps : List P) → EndsInText ps → EndsInText (keep empty blank p ps)
  keep-EndsInText p [] h = elim (Bool-cases (blank p)) [ inl e ↦ rw e tt | inr e ↦ rw e e ]
  keep-EndsInText p (q ∷ ps) h = h

  trim-EndsInText : (pages : List P) → EndsInText (trim empty blank pages)
  unfolding trim
  trim-EndsInText [] = tt
  trim-EndsInText (p ∷ ps) = keep-EndsInText p (trim empty blank ps) (trim-EndsInText ps)

  length-keep : (p : P) (ps : List P) → length (keep empty blank p ps) ≤ suc (length ps)
  length-keep p [] = ground arith
  length-keep p (q ∷ ps) = omega arith

  length-trim : (pages : List P) → length (trim empty blank pages) ≤ length pages
  unfolding trim
  length-trim [] = omega arith
  length-trim (p ∷ ps) = omega (arith, length-trim ps, length-keep p (trim empty blank ps))

  length-pad_to :
      (page : ℕ) (pages : List P)
      → length (pad_to empty blank page pages) ≡ length pages + (page - length pages)
  unfolding pad_to
  length-pad_to page pages = omega (
    arith,
    length-append pages (replicate (page - length pages) empty),
    length-replicate (page - length pages) empty,
  )

  length-insert :
      (page : ℕ) (pages : List P) (text : P)
      → length (take page pages ++ text ∷ drop page pages) ≡ suc (length pages)
  length-insert page pages text = omega (
    arith,
    length-append (take page pages) (text ∷ drop page pages),
    length-take page pages,
    length-drop page pages,
  )

  length-without :
      (page : ℕ) (pages : List P) → length (without empty blank page pages) ≤ length pages
  length-without page pages = omega (
    arith,
    length-append (take page pages) (drop (page + 1) pages),
    length-take page pages,
    length-drop (page + 1) pages,
  )

  length-edit :
      (pages : List P) (action : BookAction) (page page2 : ℕ) (text : P) (out : List P)
      → length pages ≤ 100
      → page < 100
      → edit empty blank pages action page page2 text ≡ some out
      → length out ≤ 101
  unfolding edit
  length-edit pages BookAction.replace_page page page2 text out h b e = ground (
    arith,
    length-pad_to page pages,
    length-set (pad_to empty blank page pages) page text,
    length-insert page (pad_to empty blank page pages) text,
  )
  length-edit pages BookAction.add_page page page2 text out h b e =
      ground
        (arith, length-pad_to page pages, length-insert page (pad_to empty blank page pages) text)
  length-edit pages BookAction.delete_page page page2 text out h b e =
      ground (arith, length-without page pages)
  length-edit pages BookAction.swap_pages page page2 text out h b e = ground (
    arith,
    length-set pages page (get_or pages page2 empty),
    length-set (set pages page (get_or pages page2 empty)) page2 (get_or pages page empty),
  )
  length-edit pages BookAction.sign page page2 text out h b e = ground arith
  length-edit pages BookAction.other page page2 text out h b e = cc

  -- What an edit that changes a book leaves: pages that do not end in a blank one, and at most one
  -- hundred and one of them where there were at most a hundred.
  pub edit_pages-EndsInText :
      (pages : List P) (action : BookAction) (page page2 : ℕ) (text : P) (out : List P)
      → length pages ≤ 100
      → edit_pages empty blank pages action page page2 text ≡ some out
      → EndsInText out × (length out ≤ 101)
  unfolding edit_pages
  edit_pages-EndsInText pages action page page2 text out h e =
      elim (Bool-cases (lt_i32 page 0 || leb 100 page)) [
        | inl q ↦ absurd (none_some (rw q at e))
        | inr q ↦
            of_edit (edit empty blank pages action page page2 text) refl (rw q at e) (ground arith)
      ]
    where
      none_some : ◌≡◌ {A = Option (List P)} none (some out) → ⊥
      none_some r = cc

      of_edit :
          (o : Option (List P))
          → edit empty blank pages action page page2 text ≡ o
          → trimmed empty blank o ≡ some out
          → page < 100
          → EndsInText out × (length out ≤ 101)
      of_edit none r t b = cc
      of_edit (some out') r t b = rw (← some-injective _ _ t) (
        trim-EndsInText out',
        omega (arith, length-trim out', length-edit pages action page page2 text out' h b r),
      )
