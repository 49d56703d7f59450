-- ===== src/Tests/Nbt.antt =====
-- Runs of the NBT reader.
use tachyne_gw_bedrock.Prelude.{ℕ, ◌≡◌, refl, List, [], ◌∷◌, ◌++◌, arith}
use tachyne_gw_bedrock.Nbt.Reader.{done, fail, big_endian}
use tachyne_gw_bedrock.Nbt.Read.{
  no_fields, field, read_nbt, read_tag, read_kind, kind_of, read_number, read_full, read_text,
  read_fields, set_field, int16,
}
use tachyne_gw_bedrock.Nbt.Written.{
  Entries, compound_of, list_of, string, short_tag, int_array, no_entries, entry, nil, cons, emit,
  fields_of,
}
use tachyne_gw_bedrock.Nbt.Ends.{Leaves, read_nbt-Leaves}
use tachyne_gw_bedrock.Nbt.Delimited.{read_nbt-append, read_nbt-cut}
use tachyne_gw_bedrock.Nbt.RoundTrip.{read_nbt-emit}

-- {id: 300s, id: "a"}
abbrev renamed : Entries
renamed =
    entry (b'i' ∷ b'd' ∷ []) (short_tag 300)
      (entry (b'i' ∷ b'd' ∷ []) (string (b'a' ∷ [])) no_entries)

-- {x: {y: ["", "b"]}, z: [I; 1, 70000]}
abbrev nested : Entries
nested =
    entry (b'x' ∷ [])
      (compound_of (
        entry (b'y' ∷ []) (list_of 8 (cons (string []) (cons (string (b'b' ∷ [])) nil)))
          no_entries))
      (entry (b'z' ∷ []) (int_array (1 ∷ 70000 ∷ [])) no_entries)

abbrev whole : List ℕ
whole = 10 ∷ 2 ∷ 0 ∷ 2 ∷ b'i' ∷ b'd' ∷ 1 ∷ 44 ∷ 0 ∷ []

read_whole : read_nbt whole ≡ done (field (b'i' ∷ b'd' ∷ []) (int16 300) no_fields) []
unfolding read_nbt read_tag read_kind kind_of read_number read_full read_text read_fields big_endian
    set_field
read_whole = refl

-- A short that is cut after its first byte is read with a zero.
read_cut_short : read_tag 1 2 (1 ∷ []) ≡ done (int16 256) []
unfolding read_tag read_kind kind_of read_number big_endian
read_cut_short = refl

read_nbt-emit_example :
    read_nbt (10 ∷ emit (compound_of nested) ++ 7 ∷ []) ≡ done (fields_of no_fields nested) (7 ∷ [])
read_nbt-emit_example = read_nbt-emit nested (7 ∷ []) (omega arith)

read_nbt-append_example :
    read_nbt (whole ++ 1 ∷ 2 ∷ [])
    ≡ done (field (b'i' ∷ b'd' ∷ []) (int16 300) no_fields) (1 ∷ 2 ∷ [])
read_nbt-append_example =
    read_nbt-append whole (1 ∷ 2 ∷ []) [] (field (b'i' ∷ b'd' ∷ []) (int16 300) no_fields)
      read_whole

abbrev cut : List ℕ
cut = 10 ∷ 2 ∷ 0 ∷ 2 ∷ b'i' ∷ b'd' ∷ 1 ∷ []

read_nbt-cut_example : read_nbt cut ≡ fail
read_nbt-cut_example =
    read_nbt-cut cut 44 (0 ∷ []) (field (b'i' ∷ b'd' ∷ []) (int16 300) no_fields) read_whole

read_nbt-Leaves_example : Leaves cut (read_nbt cut)
read_nbt-Leaves_example = read_nbt-Leaves cut
