-- ===== src/Tests/Books.antt =====
-- A signed book of two pages, among a stack's components.
use tachyne_gw_bedrock.Prelude.{
  ℕ, ◌<◌, ◌^◌, ◌≡◌, refl, List, [], ◌∷◌, ◌++◌, length, take, drop, arith,
}
use mathlib.Core.Path.{ap₂}
use tachyne_gw_bedrock.Nbt.Reader.{Read, done, fail, read_byte, ◌>>=◌}
use tachyne_gw_bedrock.Nbt.Read.{read_full}
use tachyne_gw_bedrock.Nbt.Exact.{take_exact, drop_exact}
use tachyne_gw_bedrock.Books.Content.{parse_book, read_nbt_string, text_after}
use tachyne_gw_bedrock.Books.Pages.{Component, signed, content_of, Fits, put_book, parse_book-put}

-- A VarInt is a byte here, and a string is its length and its bytes.
abbrev byte_string : List ℕ → Read (List ℕ)
byte_string bs = do (n, rest) ← read_byte bs; done (take n rest) (drop n rest)

abbrev put_byte_string : List ℕ → List ℕ
put_byte_string s = length s ∷ s

byte_string-put :
    (s rest : List ℕ) → length s < 2 ^ 15 → byte_string (put_byte_string s ++ rest) ≡ done s rest
byte_string-put s rest h = ap₂ done (take_exact s rest) (drop_exact s rest)

abbrev diary : Component
diary = signed (b'D' ∷ []) (b'M' ∷ b'e' ∷ []) 1 ((b'a' ∷ []) ∷ [] ∷ [])

diary-Fits : Fits diary
diary-Fits = (omega arith, omega arith, omega arith, omega arith, (omega arith, (omega arith, tt)))

parse_book-put_example :
    parse_book read_byte byte_string (
      put_book read_byte
        (λ v. v ∷ [])
        (λ v rest h. refl)
        byte_string
        put_byte_string
        byte_string-put
        2
        0
        diary
        (9 ∷ []))
    ≡ done (content_of diary) (9 ∷ [])
parse_book-put_example =
    parse_book-put read_byte (λ v. v ∷ []) (λ v rest h. refl) byte_string put_byte_string
      byte_string-put 2 0 diary (9 ∷ []) (omega arith) (omega arith) (omega arith) diary-Fits

-- An empty text with nothing behind it is not read.
empty_at_end : read_nbt_string (8 ∷ 0 ∷ 0 ∷ []) ≡ fail
unfolding read_nbt_string read_full text_after
empty_at_end = refl
