-- ===== src/Nbt/RoundTrip.antt =====
-- readJavaNBT reads what the world writes (internal/gw/nbtjava.go).
use tachyne_gw_bedrock.Prelude.{
  ℕ, zero, suc, ◌<◌, ◌≡◌, refl, false, List, [], ◌∷◌, ◌++◌, ◌==◌, length, arith, length-append,
}
use mathlib.Core.List.{append_assoc}
use tachyne_gw_bedrock.Nbt.Reader.{done, put_big_endian}
use tachyne_gw_bedrock.Nbt.Read.{
  Fields, kind_of, set_field, no_fields, read_values, read_list, read_fields, read_kind, read_tag,
  read_nbt,
}
use tachyne_gw_bedrock.Nbt.Written.{
  Tag, Tags, Entries, byte_tag, short_tag, int_tag, long_tag, float_tag, double_tag, byte_array,
  string, int_array, long_array, list_of, compound_of, nil, cons, no_entries, entry, type_id, count,
  put_all, emit, emit_all, emit_entries, value_of, values_of, fields_of, Fits, FitsAll, FitsEntries,
}
use tachyne_gw_bedrock.Nbt.Exact.{read_number-put, read_text-put, within_list_limit, read_array-put}

type_id_pos : (v : Tag) → (type_id v == 0) ≡ false
type_id_pos (byte_tag n) = refl
type_id_pos (list_of t vs) = refl
type_id_pos (compound_of es) = refl
type_id_pos v = refl

regroup : (a b c d e : List ℕ) → (a ++ (b ++ (c ++ d))) ++ e ≡ a ++ (b ++ (c ++ (d ++ e)))
regroup a b c d e = simp append_assoc

mutual
  unfolding emit emit_all emit_entries value_of values_of fields_of read_tag read_kind read_list
      read_values read_fields kind_of

  read_tag-emit_in :
      (v : Tag) (room : ℕ) (rest : List ℕ)
      → Fits room v
      → 0 < length rest
      → read_tag room (type_id v) (emit v ++ rest) ≡ done (value_of v) rest
  read_tag-emit_in v zero rest f h = elim f [ ]
  read_tag-emit_in (byte_tag n) (suc room) rest f h = refl
  read_tag-emit_in (short_tag n) (suc room) rest f h = rw (read_number-put 2 n rest f h) refl
  read_tag-emit_in (int_tag n) (suc room) rest f h = rw (read_number-put 4 n rest f h) refl
  read_tag-emit_in (long_tag n) (suc room) rest f h = rw (read_number-put 8 n rest f h) refl
  read_tag-emit_in (float_tag n) (suc room) rest f h = rw (read_number-put 4 n rest f h) refl
  read_tag-emit_in (double_tag n) (suc room) rest f h = rw (read_number-put 8 n rest f h) refl
  read_tag-emit_in (byte_array ns) (suc room) rest f h =
      rw
        (
          append_assoc (put_big_endian 4 (length ns)) (put_all 1 ns) rest,
          read_array-put 1 ns rest f h,
        )
        refl
  read_tag-emit_in (string s) (suc room) rest f h =
      rw (append_assoc (put_big_endian 2 (length s)) s rest, read_text-put s rest f h) refl
  read_tag-emit_in (list_of t vs) (suc room) rest f h =
      rw
        (
          append_assoc (put_big_endian 4 (count vs)) (emit_all vs) rest,
          read_number-put 4 (count vs) (emit_all vs ++ rest) (omega (arith, f.0))
              (omega (arith, length-append (emit_all vs) rest)),
          within_list_limit (count vs) f.0,
          read_values-emit vs room t rest f.1 h,
        )
        refl
  read_tag-emit_in (compound_of es) (suc room) rest f h =
      rw
        (
          append_assoc (emit_entries es) (0 ∷ []) rest,
          read_fields-emit es room no_fields rest (suc (length (emit_entries es ++ 0 ∷ rest))) f
              (omega (arith, length-append (emit_entries es) (0 ∷ rest))),
        )
        refl
  read_tag-emit_in (int_array ns) (suc room) rest f h =
      rw
        (
          append_assoc (put_big_endian 4 (length ns)) (put_all 4 ns) rest,
          read_array-put 4 ns rest f h,
        )
        refl
  read_tag-emit_in (long_array ns) (suc room) rest f h =
      rw
        (
          append_assoc (put_big_endian 4 (length ns)) (put_all 8 ns) rest,
          read_array-put 8 ns rest f h,
        )
        refl

  read_values-emit :
      (vs : Tags) (room t : ℕ) (rest : List ℕ)
      → FitsAll room t vs
      → 0 < length rest
      → read_values (read_tag room) t (count vs) (emit_all vs ++ rest) ≡ done (values_of vs) rest
  read_values-emit nil room t rest f h = refl
  read_values-emit (cons v vs) room t rest f h =
      let first : read_tag room t (emit v ++ (emit_all vs ++ rest))
          ≡ done (value_of v) (emit_all vs ++ rest) =
        rw f.0 at (
          read_tag-emit_in v room (emit_all vs ++ rest) f.1
            (omega (arith, length-append (emit_all vs) rest))) in
      rw (append_assoc (emit v) (emit_all vs) rest, first, read_values-emit vs room t rest f.2 h)
        refl

  read_fields-emit :
      (es : Entries) (room : ℕ) (m : Fields) (rest : List ℕ) (fuel : ℕ)
      → FitsEntries room es
      → length (emit_entries es) < fuel
      → read_fields (read_tag room) fuel m (emit_entries es ++ 0 ∷ rest)
        ≡ done (fields_of m es) rest
  read_fields-emit es room m rest zero f h = absurd (omega arith)
  read_fields-emit no_entries room m rest (suc fuel) f h = refl
  read_fields-emit (entry name v es) room m rest (suc fuel) f h =
      rw
        (
          type_id_pos v,
          regroup (put_big_endian 2 (length name)) name (emit v) (emit_entries es) (0 ∷ rest),
          read_text-put name (emit v ++ (emit_entries es ++ 0 ∷ rest)) f.0 (
              omega (
                arith,
                length-append (emit v) (emit_entries es ++ 0 ∷ rest),
                length-append (emit_entries es) (0 ∷ rest),
              )),
          read_tag-emit_in v room (emit_entries es ++ 0 ∷ rest) f.1
              (omega (arith, length-append (emit_entries es) (0 ∷ rest))),
        )
        (read_fields-emit es room (set_field name (value_of v) m) rest fuel f.2 (
          omega (
            arith,
            h,
            length-append (put_big_endian 2 (length name)) (name ++ (emit v ++ emit_entries es)),
            length-append name (emit v ++ emit_entries es),
            length-append (emit v) (emit_entries es),
          )))

read_tag-emit_compound :
    (es : Entries) (room : ℕ) (rest : List ℕ)
    → FitsEntries room es
    → read_tag (suc room) 10 (emit (compound_of es) ++ rest) ≡ done (value_of (compound_of es)) rest
unfolding emit value_of read_tag read_kind kind_of
read_tag-emit_compound es room rest f =
    rw
      (
        append_assoc (emit_entries es) (0 ∷ []) rest,
        read_fields-emit es room no_fields rest (suc (length (emit_entries es ++ 0 ∷ rest))) f
            (omega (arith, length-append (emit_entries es) (0 ∷ rest))),
      )
      refl

-- A map of fields that the world writes, no deeper than 32 tags and with texts and arrays within the format's limits, is
-- read back to the same fields, and the reader stops right behind it.
pub read_nbt-emit :
    (es : Entries) (rest : List ℕ)
    → Fits 33 (compound_of es)
    → read_nbt (10 ∷ emit (compound_of es) ++ rest) ≡ done (fields_of no_fields es) rest
unfolding read_nbt value_of
read_nbt-emit es rest f = rw (read_tag-emit_compound es 32 rest f) refl
