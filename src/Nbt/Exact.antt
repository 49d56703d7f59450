-- ===== src/Nbt/Exact.antt =====
-- The readers of internal/gw/nbtjava.go on numbers, texts and arrays as they are written.
use tachyne_gw_bedrock.Prelude.{
  if◌then◌else◌, ℕ, suc, ◌*◌, ◌^◌, ◌<◌, ◌≤◌, ◌≡◌, refl, sym, ap, ◌∙◌, false, List, [], ◌∷◌, ◌++◌,
  ◌||◌, lt_i32, ◌==◌, ==_iff, length, take, drop, replicate, ◌-◌, arith, length-append,
}
use mathlib.Core.List.{append-nil}
use mathlib.Core.Path.{ap₂}
use tachyne_gw_bedrock.Nbt.Reader.{
  done, read, buffer, big_endian, put_big_endian, big_endian-put_big_endian, length-put_big_endian,
}
use tachyne_gw_bedrock.Nbt.Read.{read_number, read_full, read_text, read_array}
use tachyne_gw_bedrock.Nbt.Written.{put_all}

pub take_exact : (xs rest : List ℕ) → take (length xs) (xs ++ rest) ≡ xs
take_exact [] rest = refl
take_exact (x ∷ xs) rest = ap (◌∷◌ x) (take_exact xs rest)

pub drop_exact : (xs rest : List ℕ) → drop (length xs) (xs ++ rest) ≡ rest
drop_exact [] rest = refl
drop_exact (x ∷ xs) rest = drop_exact xs rest

-- A read of as many bytes as stand before what follows.
read_exact :
    (n : ℕ) (xs rest : List ℕ)
    → length xs ≡ n
    → 0 < length rest
    → read n (xs ++ rest) ≡ done xs rest
read_exact n xs rest q h = nonempty (xs ++ rest) refl (omega (arith, length-append xs rest))
  where
    nonempty : (bs : List ℕ) → bs ≡ xs ++ rest → 0 < length bs → read n bs ≡ done xs rest
    nonempty [] e k = absurd (omega arith)
    nonempty (b ∷ bs) e k =
        ap₂ done (ap₂ take (sym q) e ∙ take_exact xs rest) (ap₂ drop (sym q) e ∙ drop_exact xs rest)

full_buffer : (w : ℕ) (bs : List ℕ) → length bs ≡ w → buffer w bs ≡ bs
full_buffer w bs e = ap (λ n. bs ++ replicate n 0) none_left ∙ append-nil bs
  where
    none_left : w - length bs ≡ 0
    none_left = omega arith

pub read_number-put :
    (w n : ℕ) (rest : List ℕ)
    → n < 256 ^ w
    → 0 < length rest
    → read_number w (put_big_endian w n ++ rest) ≡ done n rest
unfolding read_number
read_number-put w n rest h k =
    rw (read_exact w (put_big_endian w n) rest (length-put_big_endian w n) k) (
      ap (λ x. done x rest)
        (ap big_endian (full_buffer w (put_big_endian w n) (length-put_big_endian w n))
          ∙ big_endian-put_big_endian w n h))

pub read_full-append :
    (n : ℕ) (xs rest : List ℕ)
    → length xs ≡ n
    → 0 < length rest
    → read_full n (xs ++ rest) ≡ done xs rest
unfolding read_full
read_full-append n xs rest e k =
    rw (read_exact n xs rest e k) (rw ((==_iff (length xs) n).1 e) refl)

pub read_text-put :
    (s rest : List ℕ)
    → length s < 256 ^ 2
    → 0 < length rest
    → read_text (put_big_endian 2 (length s) ++ (s ++ rest)) ≡ done s rest
unfolding read_text
read_text-put s rest h k =
    rw (read_number-put 2 (length s) (s ++ rest) h (omega (arith, length-append s rest)))
      (read_full-append (length s) s rest refl k)

length-put_all : (w : ℕ) (ns : List ℕ) → length (put_all w ns) ≡ length ns * w
unfolding put_all
length-put_all w [] = omega arith
length-put_all w (n ∷ ns) = omega (
  arith,
  length-append (put_big_endian w n) (put_all w ns),
  length-put_big_endian w n,
  length-put_all w ns,
)

pub within_limit : (n : ℕ) → n ≤ 2 ^ 24 → (lt_i32 n 0 || lt_i32 (2 ^ 24) n) ≡ false
within_limit n h = ground arith

pub within_list_limit : (n : ℕ) → n ≤ 2 ^ 16 → (lt_i32 n 0 || lt_i32 (2 ^ 16) n) ≡ false
within_list_limit n h = ground arith

not_empty : (n : ℕ) → (suc n == 0) ≡ false
not_empty n = ground arith

pub read_array-put :
    (w : ℕ) (ns rest : List ℕ)
    → length ns ≤ 2 ^ 24
    → 0 < length rest
    → read_array w (put_big_endian 4 (length ns) ++ (put_all w ns ++ rest))
      ≡ done (put_all w ns) rest
unfolding read_array put_all
read_array-put w ns rest h k =
    rw
      (read_number-put 4 (length ns) (put_all w ns ++ rest) (omega arith)
        (omega (arith, length-append (put_all w ns) rest)))
      (rw (within_limit (length ns) h) (elements ns))
  where
    elements :
        (ns : List ℕ)
        → (if length ns == 0
            then done [] (put_all w ns ++ rest)
            else read_full (length ns * w) (put_all w ns ++ rest))
          ≡ done (put_all w ns) rest
    elements [] = refl
    elements (n ∷ ns) =
        rw (not_empty (length ns))
          (read_full-append _ (put_all w (n ∷ ns)) rest (length-put_all w (n ∷ ns)) k)
