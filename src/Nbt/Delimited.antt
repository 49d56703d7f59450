-- ===== src/Nbt/Delimited.antt =====
-- Where readJavaNBT stops (internal/gw/nbtjava.go), whatever follows.
use tachyne_gw_bedrock.Prelude.{
  ℕ, zero, suc, ◌^◌, ◌≤◌, ◌≡◌, ◌≢◌, refl, sym, ◌∙◌, List, [], ◌∷◌, ◌++◌, ◌||◌, lt_i32, ◌==◌, length,
  arith, length-append,
}
use tachyne_gw_bedrock.Nbt.Reader.{Read, done, fail, stuck, ◌>>=◌, read_byte}
use tachyne_gw_bedrock.Nbt.Read.{
  Value, Fields, Kind, kind_of, set_field, tagged, as_fields, compound, no_fields, read_number,
  read_text, read_values, read_list, read_fields, read_kind, read_tag, read_nbt,
}
use tachyne_gw_bedrock.Nbt.Ends.{
  Leaves, Leaves-bind, Leaves-if, read_values-Leaves, read_tag-Leaves, read_nbt-Leaves,
}
use tachyne_gw_bedrock.Nbt.Within.{
  Same, Within, Fails, Within-of_Same, Within-bind, Same-bind, Fails-bind, Within-if, Same-if,
  read_byte-Within, read_number-Within, number_at_end, read_text-Within, read_array-Within,
  tagged-Within,
}

module _ (item : ℕ → List ℕ → Read Value) (more : List ℕ)
    (ends : (t : ℕ) (bs : List ℕ) → Leaves bs (item t bs))
    (keeps : (t : ℕ) (bs : List ℕ) → Within more (item t bs) (item t (bs ++ more))) where
  read_values-Within :
      (t n : ℕ) (bs : List ℕ)
      → Within more (read_values item t n bs) (read_values item t n (bs ++ more))
  unfolding read_values
  read_values-Within t zero [] = tt
  read_values-Within t zero (b ∷ bs) = refl
  read_values-Within t (suc n) bs =
      Within-bind more _ _ (item t bs) (item t (bs ++ more)) (keeps t bs)
        (λ v.
          Leaves-bind [] (read_values item t n []) _ (read_values-Leaves item ends t n [])
            λ vs rest h. ([], refl))
        λ v b rest.
          Within-bind more _ _ (read_values item t n (b ∷ rest))
            (read_values item t n ((b ∷ rest) ++ more)) (read_values-Within t n (b ∷ rest))
            (λ vs. ([], refl)) λ vs c rest'. refl

  read_list-Within : (bs : List ℕ) → Within more (read_list item bs) (read_list item (bs ++ more))
  unfolding read_list
  read_list-Within bs =
      Within-bind more _ _ (read_byte bs) (read_byte (bs ++ more)) (read_byte-Within more bs)
        (λ t. number_at_end _)
        λ t b rest.
          Within-bind more _ _ (read_number 4 (b ∷ rest)) (read_number 4 ((b ∷ rest) ++ more))
            (read_number-Within more 4 (b ∷ rest))
            (λ n.
              Leaves-if [] (lt_i32 n 0 || lt_i32 (2 ^ 16) n) fail _ tt
                (read_values-Leaves item ends t n []))
            λ n c rest'.
              Within-if more (lt_i32 n 0 || lt_i32 (2 ^ 16) n) fail _ fail _ tt
                (read_values-Within t n (c ∷ rest'))

  fields_at_end : (fuel : ℕ) (m : Fields) → Fails (read_fields item fuel m [])
  unfolding read_fields
  fields_at_end zero m = tt
  fields_at_end (suc fuel) m = tt

  read_fields-Same :
      (fuel fuel' : ℕ) (m : Fields) (bs : List ℕ)
      → fuel ≤ fuel'
      → Same more (read_fields item fuel m bs) (read_fields item fuel' m (bs ++ more))
  unfolding read_fields
  read_fields-Same zero fuel' m bs h = tt
  read_fields-Same (suc fuel) zero m bs h = absurd (omega arith)
  read_fields-Same (suc fuel) (suc fuel') m [] h = tt
  read_fields-Same (suc fuel) (suc fuel') m (t ∷ bs) h =
      Same-if more (t == 0) (done m bs) _ (done m (bs ++ more)) _ refl (
        Same-bind more _ _ (read_text bs) (read_text (bs ++ more)) (read_text-Within more bs)
          (λ name.
            Fails-bind (item t []) _ (ends t []) λ v. fields_at_end fuel (set_field name v m))
          λ name b rest.
            Same-bind more _ _ (item t (b ∷ rest)) (item t ((b ∷ rest) ++ more))
              (keeps t (b ∷ rest)) (λ v. fields_at_end fuel (set_field name v m))
              λ v c rest'.
                read_fields-Same fuel fuel' (set_field name v m) (c ∷ rest') (omega arith))

  read_compound-Same :
      (bs : List ℕ)
      → Same more
          (read_fields item (suc (length bs)) no_fields bs)
          (read_fields item (suc (length (bs ++ more))) no_fields (bs ++ more))
  read_compound-Same bs = read_fields-Same _ _ no_fields bs (omega (arith, length-append bs more))

  read_kind-Within :
      (k : Kind) (bs : List ℕ) → Within more (read_kind item k bs) (read_kind item k (bs ++ more))
  unfolding read_kind
  read_kind-Within Kind.end_tag bs = tt
  read_kind-Within Kind.byte_tag bs = tagged-Within more _ _ _ (read_byte-Within more bs)
  read_kind-Within Kind.short_tag bs = tagged-Within more _ _ _ (read_number-Within more 2 bs)
  read_kind-Within Kind.int_tag bs = tagged-Within more _ _ _ (read_number-Within more 4 bs)
  read_kind-Within Kind.long_tag bs = tagged-Within more _ _ _ (read_number-Within more 8 bs)
  read_kind-Within Kind.float_tag bs = tagged-Within more _ _ _ (read_number-Within more 4 bs)
  read_kind-Within Kind.double_tag bs = tagged-Within more _ _ _ (read_number-Within more 8 bs)
  read_kind-Within Kind.byte_array_tag bs = tagged-Within more _ _ _ (read_array-Within more 1 bs)
  read_kind-Within Kind.string_tag bs = tagged-Within more _ _ _ (read_text-Within more bs)
  read_kind-Within Kind.list_tag bs = tagged-Within more _ _ _ (read_list-Within bs)
  read_kind-Within Kind.compound_tag bs =
      tagged-Within more _ _ _ (Within-of_Same more _ _ (read_compound-Same bs))
  read_kind-Within Kind.int_array_tag bs = tagged-Within more _ _ _ (read_array-Within more 4 bs)
  read_kind-Within Kind.long_array_tag bs = tagged-Within more _ _ _ (read_array-Within more 8 bs)
  read_kind-Within Kind.unknown bs = tt

read_tag-Within :
    (more : List ℕ) (room t : ℕ) (bs : List ℕ)
    → Within more (read_tag room t bs) (read_tag room t (bs ++ more))
unfolding read_tag
read_tag-Within more zero t bs = tt
read_tag-Within more (suc room) t bs =
    read_kind-Within (read_tag room) more (read_tag-Leaves room) (read_tag-Within more room)
      (kind_of t) bs

compound-Same :
    (more : List ℕ) (room : ℕ) (bs : List ℕ)
    → Same more
        (read_tag (suc room) 10 bs >>= as_fields)
        (read_tag (suc room) 10 (bs ++ more) >>= as_fields)
unfolding read_tag read_kind kind_of
compound-Same more room bs =
    finish _ _ (
      read_compound-Same (read_tag room) more (read_tag-Leaves room) (read_tag-Within more room) bs)
  where
    finish :
        (r r' : Read Fields)
        → Same more r r'
        → Same more (tagged compound r >>= as_fields) (tagged compound r' >>= as_fields)
    finish (done m rest) r' s = rw s refl
    finish fail r' s = tt
    finish stuck r' s = tt

pub read_nbt-Same : (more bs : List ℕ) → Same more (read_nbt bs) (read_nbt (bs ++ more))
unfolding read_nbt
read_nbt-Same more [] = tt
read_nbt-Same more (t ∷ bs) =
    Same-if more (t == 0) (done no_fields bs) _ (done no_fields (bs ++ more)) _ refl (
      Same-if more (t == 10) (read_tag 33 10 bs >>= as_fields) fail _ fail
        (compound-Same more 32 bs) tt)

-- A block entity's NBT that is read stands by itself: whatever follows it, the reader gives the same fields and stops at the
-- same byte.
pub read_nbt-append :
    (bs more rest : List ℕ) (m : Fields)
    → read_nbt bs ≡ done m rest
    → read_nbt (bs ++ more) ≡ done m (rest ++ more)
read_nbt-append bs more rest m e = from_Same (rw e at (read_nbt-Same more bs))
  where
    from_Same :
        Same more (done m rest) (read_nbt (bs ++ more))
        → read_nbt (bs ++ more) ≡ done m (rest ++ more)
    from_Same s = s

-- Where an input is read to its last byte, an input that is cut short anywhere before that byte is refused: it neither is read in
-- part nor keeps the reader from ending.
pub read_nbt-cut :
    (bs : List ℕ) (b : ℕ) (more : List ℕ) (m : Fields)
    → read_nbt (bs ++ b ∷ more) ≡ done m []
    → read_nbt bs ≡ fail
read_nbt-cut bs b more m e = by_result (read_nbt bs) refl (read_nbt-Leaves bs)
  where
    by_result : (r : Read Fields) → read_nbt bs ≡ r → Leaves bs r → read_nbt bs ≡ fail
    by_result (done m' rest) q l =
        let longer = sym (read_nbt-append bs (b ∷ more) rest m' q) ∙ e in
        absurd (nonempty rest longer)
      where
        nonempty : (rest : List ℕ) → ◌≢◌ {A = Read Fields} (done m' (rest ++ b ∷ more)) (done m [])
        nonempty [] h = cc h
        nonempty (c ∷ cs) h = cc h
    by_result fail q l = q
    by_result stuck q l = elim l [ ]
