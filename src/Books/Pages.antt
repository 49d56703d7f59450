-- ===== src/Books/Pages.antt =====
-- A book's component as the world writes it, read by parseBook (internal/gw/books.go).
use tachyne_gw_bedrock.Prelude.{
  ℕ, ◌+◌, ◌*◌, ◌/◌, ◌%◌, ◌^◌, ◌<◌, ◌≤◌, ◌≡◌, refl, true, false, List, [], ◌∷◌, ◌++◌, ◌||◌, lt_i32,
  le_i32, length, arith,
}
use tachyne_gw_bedrock.Nbt.Reader.{Read, done}
use tachyne_gw_bedrock.Nbt.Read.{read_full}
use tachyne_gw_bedrock.Nbt.Exact.{read_full-append}
use tachyne_gw_bedrock.Books.Content.{
  Content, text_after, read_nbt_string, skip_text, read_pages, signed_page, draft_page,
  counted_pages, read_signed, read_draft, read_content, parse_book,
}

few_pages : (n : ℕ) → n ≤ 100 → (lt_i32 n 0 || lt_i32 100 n) ≡ false
few_pages n h = ground arith

some_added : (n : ℕ) → 0 < n → n < 2 ^ 31 → le_i32 n 0 ≡ false
some_added n h k = ground arith

-- A text component in front of what follows.
abbrev put_nbt_string : List ℕ → List ℕ → List ℕ
put_nbt_string s rest = 8 ∷ length s / 256 ∷ length s % 256 ∷ s ++ rest

-- A page that the world sends, without a filtered text.
unfoldable put_signed_page : List ℕ → List ℕ → List ℕ
put_signed_page s rest = put_nbt_string s (0 ∷ rest)

abbrev pub AllShort : List (List ℕ) → Type 0
AllShort [] = Unit
AllShort (s ∷ ss) = (length s < 2 ^ 15) × AllShort ss

put_pages : (List ℕ → List ℕ → List ℕ) → List (List ℕ) → List ℕ → List ℕ
put_pages put_page [] rest = rest
put_pages put_page (s ∷ ss) rest = put_page s (put_pages put_page ss rest)

read_nbt_string-put :
    (s : List ℕ) (b : ℕ) (rest : List ℕ)
    → read_nbt_string (put_nbt_string s (b ∷ rest)) ≡ done s (b ∷ rest)
unfolding read_nbt_string read_full text_after
read_nbt_string-put s b rest =
    let whole : length s / 256 * 256 + length s % 256 ≡ length s = omega arith in
    rw whole (read_full-append (length s) s (b ∷ rest) refl (omega arith))

signed_page-put :
    (s rest : List ℕ) → length s < 2 ^ 15 → signed_page (put_signed_page s rest) ≡ done s rest
unfolding signed_page put_signed_page skip_text
signed_page-put s rest h = rw (read_nbt_string-put s 0 rest) refl

-- The pages are read back by a reader that reads each of them back.
read_pages-put :
    (read_page : List ℕ → Read (List ℕ)) (put_page : List ℕ → List ℕ → List ℕ)
    → ((s rest : List ℕ) → length s < 2 ^ 15 → read_page (put_page s rest) ≡ done s rest)
    → (ss : List (List ℕ)) (rest : List ℕ) → AllShort ss
    → read_pages read_page (length ss) (put_pages put_page ss rest) ≡ done ss rest
unfolding read_pages put_pages
read_pages-put read_page put_page back [] rest f = refl
read_pages-put read_page put_page back (s ∷ ss) rest f =
    rw (back s (put_pages put_page ss rest) f.0, read_pages-put read_page put_page back ss rest f.1)
      refl

-- The two book components that the world sends: title, author, generation and pages, or the pages only.
pub data Component : Type 0 where
  signed : List ℕ → List ℕ → ℕ → List (List ℕ) → Component
  draft : List (List ℕ) → Component

abbrev pub content_of : Component → Content
content_of (signed title author generation pages) = record {
  written = true;
  title = title;
  author = author;
  generation = generation;
  pages = pages;
}
content_of (draft pages) = record {
  written = false;
  title = [];
  author = [];
  generation = 0;
  pages = pages;
}

abbrev pub component_id : Component → ℕ
component_id (signed title author generation pages) = 46
component_id (draft pages) = 45

component_id-small : (b : Component) → component_id b < 2 ^ 32
component_id-small (signed title author generation pages) = omega arith
component_id-small (draft pages) = omega arith

abbrev pub Fits : Component → Type 0
Fits (signed title author generation pages) =
    (length title < 2 ^ 15)
    × (length author < 2 ^ 15)
    × (generation < 2 ^ 32)
    × (length pages ≤ 100)
    × AllShort pages
Fits (draft pages) = (length pages ≤ 100) × AllShort pages

-- What the shared library's VarInts and strings are relied on for: what is written is read back.
module _ (read_var_int : List ℕ → Read ℕ) (put_var_int : ℕ → List ℕ)
    (var_int_back : (v : ℕ) (rest : List ℕ)
      → v < 2 ^ 32
      → read_var_int (put_var_int v ++ rest) ≡ done v rest)
    (read_string : List ℕ → Read (List ℕ)) (put_string : List ℕ → List ℕ)
    (string_back : (s rest : List ℕ)
      → length s < 2 ^ 15
      → read_string (put_string s ++ rest) ≡ done s rest) where
  unfoldable put_draft_page : List ℕ → List ℕ → List ℕ
  put_draft_page s rest = put_string s ++ (0 ∷ rest)

  draft_page-put :
      (s rest : List ℕ)
      → length s < 2 ^ 15
      → draft_page read_string (put_draft_page s rest) ≡ done s rest
  unfolding draft_page put_draft_page skip_text
  draft_page-put s rest h = rw (string_back s (0 ∷ rest) h) refl

  put_counted : (List ℕ → List ℕ → List ℕ) → List (List ℕ) → List ℕ → List ℕ
  put_counted put_page ss rest = put_var_int (length ss) ++ put_pages put_page ss rest

  counted_pages-put :
      (read_page : List ℕ → Read (List ℕ)) (put_page : List ℕ → List ℕ → List ℕ)
      → ((s rest : List ℕ) → length s < 2 ^ 15 → read_page (put_page s rest) ≡ done s rest)
      → (ss : List (List ℕ)) (rest : List ℕ) → length ss ≤ 100
      → AllShort ss
      → counted_pages read_var_int read_page (put_counted put_page ss rest) ≡ done ss rest
  unfolding counted_pages put_counted
  counted_pages-put read_page put_page back ss rest few f =
      rw
        (
          var_int_back (length ss) (put_pages put_page ss rest) (omega (arith, few)),
          few_pages (length ss) few,
        )
        (read_pages-put read_page put_page back ss rest f)

  -- What stands behind the component's id.
  put_component : Component → List ℕ → List ℕ
  put_component (signed title author generation pages) rest =
      put_string title
      ++ (0 ∷ put_string author
          ++ (put_var_int generation ++ put_counted put_signed_page pages rest))
  put_component (draft pages) rest = put_counted put_draft_page pages rest

  -- The components of a book's stack: how many are added and removed, and the book as the first of them.
  unfoldable pub put_book : ℕ → ℕ → Component → List ℕ → List ℕ
  unfolding put_component put_counted put_pages put_signed_page put_draft_page
  put_book added removed b rest =
      put_var_int added
      ++ (put_var_int removed ++ (put_var_int (component_id b) ++ put_component b rest))

  read_content-put :
      (b : Component) (rest : List ℕ)
      → Fits b
      → read_content read_var_int read_string (component_id b) (put_component b rest)
        ≡ done (content_of b) rest
  unfolding put_component read_signed read_draft skip_text
  read_content-put (signed title author generation pages) rest f =
      let pages_on = put_counted put_signed_page pages rest in
      rw
        (
          string_back title (0 ∷ put_string author ++ (put_var_int generation ++ pages_on)) f.0,
          string_back author (put_var_int generation ++ pages_on) f.1,
          var_int_back generation pages_on f.2,
          counted_pages-put signed_page put_signed_page signed_page-put pages rest f.3 f.4,
        )
        refl
  read_content-put (draft pages) rest f =
      rw
        (counted_pages-put (draft_page read_string) put_draft_page draft_page-put pages rest f.0
          f.1)
        refl

  -- parseBook reads a signed book or a book and quill of at most 100 pages back from its stack's component bytes, when
  -- the book is the first of the components added, its texts are shorter than 2 ^ 15 and none has a filtered text;
  -- what follows the book is left.
  pub parse_book-put :
      (added removed : ℕ) (b : Component) (rest : List ℕ)
      → 0 < added
      → added < 2 ^ 31
      → removed < 2 ^ 32
      → Fits b
      → parse_book read_var_int read_string (put_book added removed b rest)
        ≡ done (content_of b) rest
  unfolding parse_book put_book
  parse_book-put added removed b rest some_new fit fit_too f =
      rw
        (
          var_int_back added
              (put_var_int removed ++ (put_var_int (component_id b) ++ put_component b rest))
              (omega (arith, fit)),
          some_added added some_new fit,
          var_int_back removed (put_var_int (component_id b) ++ put_component b rest) fit_too,
          var_int_back (component_id b) (put_component b rest) (component_id-small b),
        )
        (read_content-put b rest f)
