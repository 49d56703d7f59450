-- ===== src/Nbt/Read.antt =====
-- internal/gw/nbtjava.go: readJavaNBT, readJavaString and readJavaTag. Strings are lists of bytes, and a number
-- is its bit pattern.
use tachyne_gw_bedrock.Prelude.{
  ℕ, zero, suc, ◌*◌, ◌^◌, Bool, true, false, List, [], ◌∷◌, ◌&&◌, if◌then◌else◌, ◌||◌, lt_i32, ◌==◌,
  length,
}
use tachyne_gw_bedrock.Nbt.Reader.{
  Read, done, fail, stuck, ◌>>=◌, read_byte, read, buffer, big_endian,
}

-- What readJavaTag gives as `any`: the Go type tells these apart. The three kinds of array are all []byte.
mutual
  pub data Value : Type 0 where
    byte int16 int32 int64 float32 float64 : ℕ → Value
    bytes : List ℕ → Value
    text : List ℕ → Value
    list : Values → Value
    compound : Fields → Value

  pub data Values : Type 0 where
    no_values : Values
    value : Value → Values → Values

  -- A Go map with its keys once each, by their first insertion.
  pub data Fields : Type 0 where
    no_fields : Fields
    field : List ℕ → Value → Fields → Fields

abbrev pub same_text : List ℕ → List ℕ → Bool
same_text [] [] = true
same_text [] (b ∷ bs) = false
same_text (a ∷ as_left) [] = false
same_text (a ∷ as_left) (b ∷ bs) = a == b && same_text as_left bs

-- m[name] = v
unfoldable pub set_field : List ℕ → Value → Fields → Fields
set_field name v no_fields = field name v no_fields
set_field name v (field other w fs) =
    if same_text name other then field other v fs else field other w (set_field name v fs)

-- tagEnd to tagLongArray; `unknown` is any byte above.
pub data Kind : Type 0 where
  end_tag byte_tag short_tag int_tag long_tag float_tag double_tag byte_array_tag : Kind
  string_tag list_tag compound_tag int_array_tag long_array_tag unknown : Kind

unfoldable pub kind_at : List Kind → ℕ → Kind
kind_at [] t = unknown
kind_at (k ∷ ks) zero = k
kind_at (k ∷ ks) (suc t) = kind_at ks t

abbrev pub kinds : List Kind
kinds =
    end_tag ∷ byte_tag ∷ short_tag ∷ int_tag ∷ long_tag ∷ float_tag ∷ double_tag ∷ byte_array_tag
    ∷ string_tag ∷ list_tag ∷ compound_tag ∷ int_array_tag ∷ long_array_tag ∷ []

unfoldable pub kind_of : ℕ → Kind
unfolding kind_at
kind_of = kind_at kinds

-- A read that is checked for `err` only: the bytes that are missing stay zero.
unfoldable pub read_number : ℕ → List ℕ → Read ℕ
read_number w bs = do (got, rest) ← read w bs; done (big_endian (buffer w got)) rest

-- A read that is checked for its count too.
unfoldable pub read_full : ℕ → List ℕ → Read (List ℕ)
read_full n bs = do (got, rest) ← read n bs; if length got == n then done got rest else fail

-- readJavaString
unfoldable pub read_text : List ℕ → Read (List ℕ)
unfolding read_number read_full
read_text bs = do (n, rest) ← read_number 2 bs; read_full n rest

-- The case of the arrays, with elements of `size` bytes.
unfoldable pub read_array : ℕ → List ℕ → Read (List ℕ)
unfolding read_number read_full
read_array size bs = do
  (n, rest) ← read_number 4 bs
  let elements = if n == 0 then done [] rest else read_full (n * size) rest
  if lt_i32 n 0 || lt_i32 (2 ^ 24) n then fail else elements

abbrev pub tagged {ℓ} : {A : Type ℓ} → (A → Value) → Read A → Read Value
tagged as_value (done a rest) = done (as_value a) rest
tagged as_value fail = fail
tagged as_value stuck = stuck

-- The loops and the switch, over the call of readJavaTag one level deeper.
module _ (item : ℕ → List ℕ → Read Value) where
  unfoldable pub read_values : ℕ → ℕ → List ℕ → Read Values
  read_values t zero bs = done no_values bs
  read_values t (suc n) bs = do
    (v, rest) ← item t bs
    (vs, rest') ← read_values t n rest
    done (value v vs) rest'

  unfoldable pub read_list : List ℕ → Read Values
  unfolding read_values
  read_list bs = do
    (t, rest) ← read_byte bs
    (n, rest') ← read_number 4 rest
    if lt_i32 n 0 || lt_i32 (2 ^ 16) n then fail else read_values t n rest'

  -- `for { … }`: each round reads a byte at least.
  unfoldable pub read_fields : ℕ → Fields → List ℕ → Read Fields
  read_fields zero m bs = stuck
  read_fields (suc fuel) m bs = do
    (t, rest) ← read_byte bs
    let more = do
      (name, rest') ← read_text rest
      (v, rest'') ← item t rest'
      read_fields fuel (set_field name v m) rest''
    if t == 0 then done m rest else more

  unfoldable pub read_kind : Kind → List ℕ → Read Value
  read_kind Kind.end_tag bs = fail
  read_kind Kind.byte_tag bs = tagged byte (read_byte bs)
  read_kind Kind.short_tag bs = tagged int16 (read_number 2 bs)
  read_kind Kind.int_tag bs = tagged int32 (read_number 4 bs)
  read_kind Kind.long_tag bs = tagged int64 (read_number 8 bs)
  read_kind Kind.float_tag bs = tagged float32 (read_number 4 bs)
  read_kind Kind.double_tag bs = tagged float64 (read_number 8 bs)
  read_kind Kind.byte_array_tag bs = tagged bytes (read_array 1 bs)
  read_kind Kind.string_tag bs = tagged text (read_text bs)
  read_kind Kind.list_tag bs = tagged list (read_list bs)
  read_kind Kind.compound_tag bs = tagged compound (read_fields (suc (length bs)) no_fields bs)
  read_kind Kind.int_array_tag bs = tagged bytes (read_array 4 bs)
  read_kind Kind.long_array_tag bs = tagged bytes (read_array 8 bs)
  read_kind Kind.unknown bs = fail

-- readJavaTag; `room` is 33 - depth, with 0 for every depth over 32.
unfoldable pub read_tag : ℕ → ℕ → List ℕ → Read Value
read_tag zero t bs = fail
read_tag (suc room) t bs = read_kind (read_tag room) (kind_of t) bs

-- v.(map[string]any)
abbrev pub as_fields : Value × List ℕ → Read Fields
as_fields (compound m, rest) = done m rest
as_fields (_, rest) = fail

-- readJavaNBT
unfoldable pub read_nbt : List ℕ → Read Fields
read_nbt bs = do
  (t, rest) ← read_byte bs
  let root = read_tag 33 10 rest >>= as_fields
  if t == 0 then done no_fields rest else if t == 10 then root else fail
