-- ===== src/Nbt/Written.antt =====
-- Java's network NBT as the world writes it, and the value that readJavaTag (internal/gw/nbtjava.go) makes of each
-- tag.
use tachyne_gw_bedrock.Prelude.{ℕ, zero, suc, ◌^◌, ◌<◌, ◌≤◌, ◌≡◌, List, [], ◌∷◌, ◌++◌, length}
use tachyne_gw_bedrock.Nbt.Reader.{put_big_endian}
use tachyne_gw_bedrock.Nbt.Read.{
  Value, Values, Fields, byte, int16, int32, int64, float32, float64, bytes, text, list, compound,
  no_values, value, no_fields, set_field,
}

-- Numbers are bit patterns; a list names the type of its elements.
mutual
  pub data Tag : Type 0 where
    byte_tag short_tag int_tag long_tag float_tag double_tag : ℕ → Tag
    byte_array string int_array long_array : List ℕ → Tag
    list_of : ℕ → Tags → Tag
    compound_of : Entries → Tag

  pub data Tags : Type 0 where
    nil : Tags
    cons : Tag → Tags → Tags

  pub data Entries : Type 0 where
    no_entries : Entries
    entry : List ℕ → Tag → Entries → Entries

abbrev pub type_id : Tag → ℕ
type_id (byte_tag n) = 1
type_id (short_tag n) = 2
type_id (int_tag n) = 3
type_id (long_tag n) = 4
type_id (float_tag n) = 5
type_id (double_tag n) = 6
type_id (byte_array ns) = 7
type_id (string s) = 8
type_id (list_of t vs) = 9
type_id (compound_of es) = 10
type_id (int_array ns) = 11
type_id (long_array ns) = 12

abbrev pub count : Tags → ℕ
count nil = 0
count (cons v vs) = suc (count vs)

-- The numbers one after the other, w bytes each.
unfoldable pub put_all : ℕ → List ℕ → List ℕ
put_all w [] = []
put_all w (n ∷ ns) = put_big_endian w n ++ put_all w ns

unfoldable mutual
  pub emit : Tag → List ℕ
  emit (byte_tag n) = n ∷ []
  emit (short_tag n) = put_big_endian 2 n
  emit (int_tag n) = put_big_endian 4 n
  emit (long_tag n) = put_big_endian 8 n
  emit (float_tag n) = put_big_endian 4 n
  emit (double_tag n) = put_big_endian 8 n
  emit (byte_array ns) = put_big_endian 4 (length ns) ++ put_all 1 ns
  emit (string s) = put_big_endian 2 (length s) ++ s
  emit (list_of t vs) = t ∷ put_big_endian 4 (count vs) ++ emit_all vs
  emit (compound_of es) = emit_entries es ++ 0 ∷ []
  emit (int_array ns) = put_big_endian 4 (length ns) ++ put_all 4 ns
  emit (long_array ns) = put_big_endian 4 (length ns) ++ put_all 8 ns

  pub emit_all : Tags → List ℕ
  emit_all nil = []
  emit_all (cons v vs) = emit v ++ emit_all vs

  pub emit_entries : Entries → List ℕ
  emit_entries no_entries = []
  emit_entries (entry name v es) =
      type_id v ∷ put_big_endian 2 (length name) ++ (name ++ (emit v ++ emit_entries es))

unfoldable mutual
  pub value_of : Tag → Value
  value_of (byte_tag n) = byte n
  value_of (short_tag n) = int16 n
  value_of (int_tag n) = int32 n
  value_of (long_tag n) = int64 n
  value_of (float_tag n) = float32 n
  value_of (double_tag n) = float64 n
  value_of (byte_array ns) = bytes (put_all 1 ns)
  value_of (string s) = text s
  value_of (list_of t vs) = list (values_of vs)
  value_of (compound_of es) = compound (fields_of no_fields es)
  value_of (int_array ns) = bytes (put_all 4 ns)
  value_of (long_array ns) = bytes (put_all 8 ns)

  pub values_of : Tags → Values
  values_of nil = no_values
  values_of (cons v vs) = value (value_of v) (values_of vs)

  -- A later entry of a name takes the place of an earlier one.
  pub fields_of : Fields → Entries → Fields
  fields_of m no_entries = m
  fields_of m (entry name v es) = fields_of (set_field name (value_of v) m) es

-- What the format and the reader's limits allow at a depth: 2 ^ 24 elements in an array, 2 ^ 16 in a list.
abbrev mutual
  pub Fits : ℕ → Tag → Type 0
  Fits zero v = ⊥
  Fits (suc room) (byte_tag n) = Unit
  Fits (suc room) (short_tag n) = n < 256 ^ 2
  Fits (suc room) (int_tag n) = n < 256 ^ 4
  Fits (suc room) (long_tag n) = n < 256 ^ 8
  Fits (suc room) (float_tag n) = n < 256 ^ 4
  Fits (suc room) (double_tag n) = n < 256 ^ 8
  Fits (suc room) (byte_array ns) = length ns ≤ 2 ^ 24
  Fits (suc room) (string s) = length s < 256 ^ 2
  Fits (suc room) (list_of t vs) = (count vs ≤ 2 ^ 16) × FitsAll room t vs
  Fits (suc room) (compound_of es) = FitsEntries room es
  Fits (suc room) (int_array ns) = length ns ≤ 2 ^ 24
  Fits (suc room) (long_array ns) = length ns ≤ 2 ^ 24

  pub FitsAll : ℕ → ℕ → Tags → Type 0
  FitsAll room t nil = Unit
  FitsAll room t (cons v vs) = (type_id v ≡ t) × Fits room v × FitsAll room t vs

  pub FitsEntries : ℕ → Entries → Type 0
  FitsEntries room no_entries = Unit
  FitsEntries room (entry name v es) = (length name < 256 ^ 2) × Fits room v × FitsEntries room es
