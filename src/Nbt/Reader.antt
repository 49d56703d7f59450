-- ===== src/Nbt/Reader.antt =====
-- bytes.Reader and binary.BigEndian, as internal/gw/nbtjava.go reads with them. A reader is the list
-- of the bytes that are left.
use tachyne_gw_bedrock.Prelude.{
  ℕ, zero, suc, ◌+◌, ◌-◌, ◌*◌, ◌/◌, ◌%◌, ◌^◌, ◌<◌, ◌≡◌, refl, List, [], ◌∷◌, ◌++◌, length, take,
  drop, replicate, arith, length-append,
}
use native.Mathlib.Nat.{pow-suc}

-- What reading gives: a value with the bytes that are left, or `fail`, the code's `nil, false`. `stuck` is no
-- Go value: a loop ran out of fuel.
pub data Read {ℓ} (A : Type ℓ) : Type ℓ where
  done : A → List ℕ → Read A
  fail : Read A
  stuck : Read A

infixl 5 ◌>>=◌
abbrev pub ◌>>=◌ {ℓ κ} : {A : Type ℓ} {B : Type κ} → Read A → (A × List ℕ → Read B) → Read B
done a rest >>= f = f (a, rest)
fail >>= f = fail
stuck >>= f = stuck

-- ReadByte: io.EOF when nothing is left.
abbrev pub read_byte : List ℕ → Read ℕ
read_byte [] = fail
read_byte (b ∷ bs) = done b bs

-- Read into a buffer of n bytes gives the bytes that it read: io.EOF when nothing is left (for an empty buffer
-- too), and otherwise what there is, up to n bytes.
abbrev pub read : ℕ → List ℕ → Read (List ℕ)
read n [] = fail
read n (b ∷ bs) = done (take n (b ∷ bs)) (drop n (b ∷ bs))

-- The buffer of n zero bytes after the read.
abbrev pub buffer : ℕ → List ℕ → List ℕ
buffer n got = got ++ replicate (n - length got) 0

-- binary.BigEndian.Uint16, Uint32, Uint64
pub big_endian_from : ℕ → List ℕ → ℕ
big_endian_from acc [] = acc
big_endian_from acc (b ∷ bs) = big_endian_from (acc * 256 + b) bs

unfoldable pub big_endian : List ℕ → ℕ
unfolding big_endian_from
big_endian bs = big_endian_from 0 bs

-- binary.BigEndian.Append…: the w low bytes of n.
unfoldable pub put_big_endian : ℕ → ℕ → List ℕ
put_big_endian zero n = []
put_big_endian (suc w) n = put_big_endian w (n / 256) ++ (n % 256) ∷ []

big_endian_from-append :
    (acc : ℕ) (xs : List ℕ) (b : ℕ)
    → big_endian_from acc (xs ++ b ∷ []) ≡ big_endian_from acc xs * 256 + b
unfolding big_endian_from
big_endian_from-append acc [] b = refl
big_endian_from-append acc (x ∷ xs) b = big_endian_from-append (acc * 256 + x) xs b

pub big_endian-put_big_endian : (w n : ℕ) → n < 256 ^ w → big_endian (put_big_endian w n) ≡ n
unfolding put_big_endian big_endian
big_endian-put_big_endian zero n h = omega arith
big_endian-put_big_endian (suc w) n h = omega (
  arith,
  pow-suc 256 w,
  big_endian_from-append 0 (put_big_endian w (n / 256)) (n % 256),
  big_endian-put_big_endian w (n / 256) (omega (arith, pow-suc 256 w)),
)

pub length-put_big_endian : (w n : ℕ) → length (put_big_endian w n) ≡ w
unfolding put_big_endian
length-put_big_endian zero n = refl
length-put_big_endian (suc w) n = omega (
  arith,
  length-append (put_big_endian w (n / 256)) ((n % 256) ∷ []),
  length-put_big_endian w (n / 256),
)
