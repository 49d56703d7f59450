-- ===== src/Books/Content.antt =====
-- internal/gw/books.go: parseBook and its readers. A text is the list of its bytes, and an int32 its bit pattern.
use tachyne_gw_bedrock.Prelude.{
  ℕ, zero, suc, ◌+◌, ◌*◌, Bool, true, false, List, [], ◌∷◌, ◌||◌, if◌then◌else◌, ◌==◌, lt_i32,
  le_i32,
}
use tachyne_gw_bedrock.Nbt.Reader.{Read, done, fail, ◌>>=◌, read_byte}
use tachyne_gw_bedrock.Nbt.Read.{read_full}

-- bookContent
pub record Content : Type 0 where
  pub written : Bool
  pub title : List ℕ
  pub author : List ℕ
  pub generation : ℕ
  pub pages : List (List ℕ)

-- The three bytes before a text: the tag of a string and its length.
unfoldable pub text_after : List ℕ → List ℕ → Read (List ℕ)
unfolding read_full
text_after (tag ∷ high ∷ low ∷ hdr) rest =
    if tag == 8 then read_full (high * 256 + low) rest else fail
text_after (tag ∷ high ∷ []) rest = fail
text_after (tag ∷ []) rest = fail
text_after [] rest = fail

-- readNBTString
unfoldable pub read_nbt_string : List ℕ → Read (List ℕ)
unfolding read_full text_after
read_nbt_string bs = do (hdr, rest) ← read_full 3 bs; text_after hdr rest

-- A flag, and a text of this reader that is passed over when it is set.
unfoldable pub skip_text : (List ℕ → Read (List ℕ)) → List ℕ → Read (Unit {0})
skip_text read_text bs = do
  (has, rest) ← read_byte bs
  if has == 0 then done tt rest else (do (skipped, rest) ← read_text rest; done tt rest)

-- skipFilteredNBT
abbrev pub skip_filtered_nbt : List ℕ → Read (Unit {0})
skip_filtered_nbt bs = skip_text read_nbt_string bs

unfoldable pub read_pages : (List ℕ → Read (List ℕ)) → ℕ → List ℕ → Read (List (List ℕ))
read_pages read_page zero bs = done [] bs
read_pages read_page (suc n) bs = do
  (page, rest) ← read_page bs
  (pages, rest) ← read_pages read_page n rest
  done (page ∷ pages) rest

unfoldable pub signed_page : List ℕ → Read (List ℕ)
unfolding read_nbt_string skip_text
signed_page bs = do
  (page, rest) ← read_nbt_string bs
  (skipped, rest) ← skip_filtered_nbt rest
  done page rest

-- skipFiltered, over tproto.ReadString
abbrev pub skip_filtered : (List ℕ → Read (List ℕ)) → List ℕ → Read (Unit {0})
skip_filtered read_string bs = skip_text read_string bs

unfoldable pub draft_page : (List ℕ → Read (List ℕ)) → List ℕ → Read (List ℕ)
unfolding skip_text
draft_page read_string bs = do
  (page, rest) ← read_string bs
  (skipped, rest) ← skip_filtered read_string rest
  done page rest

-- The count of the pages, and the pages.
unfoldable pub counted_pages :
    (List ℕ → Read ℕ) → (List ℕ → Read (List ℕ)) → List ℕ → Read (List (List ℕ))
unfolding read_pages
counted_pages read_var_int read_page bs = do
  (n, rest) ← read_var_int bs
  if lt_i32 n 0 || lt_i32 100 n then fail else read_pages read_page n rest

-- tproto.ReadVarInt and tproto.ReadString are the shared protocol library's.
module _ (read_var_int : List ℕ → Read ℕ) (read_string : List ℕ → Read (List ℕ)) where
  -- The case of a signed book.
  unfoldable pub read_signed : List ℕ → Read Content
  unfolding skip_text signed_page counted_pages
  read_signed bs = do
    (title, rest) ← read_string bs
    (skipped, rest) ← skip_filtered read_string rest
    (author, rest) ← read_string rest
    (generation, rest) ← read_var_int rest
    (pages, rest) ← counted_pages read_var_int signed_page rest
    let content : Content = record {
      written = true;
      title = title;
      author = author;
      generation = generation;
      pages = pages;
    }
    done content rest

  -- The case of a book and quill.
  unfoldable pub read_draft : List ℕ → Read Content
  unfolding draft_page counted_pages
  read_draft bs = do
    (pages, rest) ← counted_pages read_var_int (draft_page read_string) bs
    let content : Content = record {
      written = false;
      title = [];
      author = [];
      generation = 0;
      pages = pages;
    }
    done content rest

  abbrev pub read_content : ℕ → List ℕ → Read Content
  read_content id rest =
      if id == 46 then read_signed rest else if id == 45 then read_draft rest else fail

  -- parseBook
  unfoldable pub parse_book : List ℕ → Read Content
  unfolding read_signed read_draft
  parse_book bs = do
    (added, rest) ← read_var_int bs
    (removed, rest) ← (if le_i32 added 0 then fail else read_var_int rest)
    (id, rest) ← read_var_int rest
    read_content id rest
