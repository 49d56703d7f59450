-- ===== src/Nbt/Ends.antt =====
-- What readJavaNBT leaves of its input (internal/gw/nbtjava.go), and that its loops end.
use tachyne_gw_bedrock.Prelude.{
  ℕ, zero, suc, ◌*◌, ◌^◌, ◌<◌, ◌≤◌, ◌≡◌, refl, sym, ap, ◌∙◌, Bool, true, false, List, [], ◌∷◌, ◌++◌,
  ◌||◌, if◌then◌else◌, lt_i32, ◌==◌, length, take, arith, length-append, take-append-drop,
}
use mathlib.Core.List.{append_assoc}
use tachyne_gw_bedrock.Nbt.Reader.{Read, done, fail, stuck, ◌>>=◌, read_byte, read}
use tachyne_gw_bedrock.Nbt.Read.{
  Value, Fields, Kind, kind_of, set_field, tagged, as_fields, compound, read_number, read_full,
  read_text, read_array, read_values, read_list, read_fields, read_kind, read_tag, read_nbt,
}

-- The reader ended, and what it left is an end of its input.
abbrev pub Leaves {ℓ} : {A : Type ℓ} → List ℕ → Read A → Type 0
Leaves bs (done a rest) = (used : List ℕ) × (bs ≡ used ++ rest)
Leaves bs fail = Unit
Leaves bs stuck = ⊥

-- A chain of readers leaves an end of its input, if each does.
pub Leaves-bind {ℓ κ} :
    {A : Type ℓ} {B : Type κ} (bs : List ℕ) (r : Read A) (f : A × List ℕ → Read B)
    → Leaves bs r
    → ((a : A) (rest : List ℕ) → length rest ≤ length bs → Leaves rest (f (a, rest)))
    → Leaves bs (r >>= f)
Leaves-bind bs fail f l k = tt
Leaves-bind bs stuck f l k = l
Leaves-bind {A} {B} bs (done a rest) f (used, e) k =
    Leaves-through (f (a, rest)) (k a rest (omega (arith, ap length e, length-append used rest)))
  where
    Leaves-through : (r : Read B) → Leaves rest r → Leaves bs r
    Leaves-through (done b rest') (more, e') =
        (used ++ more, e ∙ ap (◌++◌ used) e' ∙ sym (append_assoc used more rest'))
    Leaves-through fail l = l
    Leaves-through stuck l = l

pub Leaves-if {ℓ} :
    {A : Type ℓ} (bs : List ℕ) (b : Bool) (x y : Read A)
    → Leaves bs x
    → Leaves bs y
    → Leaves bs (if b then x else y)
Leaves-if bs true x y l r = l
Leaves-if bs false x y l r = r

pub read-Leaves : (n : ℕ) (bs : List ℕ) → Leaves bs (read n bs)
read-Leaves n [] = tt
read-Leaves n (b ∷ bs) = (take n (b ∷ bs), sym (take-append-drop n (b ∷ bs)))

pub read_byte-Leaves : (bs : List ℕ) → Leaves bs (read_byte bs)
read_byte-Leaves [] = tt
read_byte-Leaves (b ∷ bs) = (b ∷ [], refl)

Leaves-cons {ℓ} : {A : Type ℓ} (b : ℕ) (bs : List ℕ) (r : Read A) → Leaves bs r → Leaves (b ∷ bs) r
Leaves-cons b bs (done a rest) (used, e) = (b ∷ used, ap (◌∷◌ b) e)
Leaves-cons b bs fail l = l
Leaves-cons b bs stuck l = l

pub read_number-Leaves : (w : ℕ) (bs : List ℕ) → Leaves bs (read_number w bs)
unfolding read_number
read_number-Leaves w bs = Leaves-bind bs (read w bs) _ (read-Leaves w bs) λ a rest h. ([], refl)

pub read_full-Leaves : (n : ℕ) (bs : List ℕ) → Leaves bs (read_full n bs)
unfolding read_full
read_full-Leaves n bs =
    Leaves-bind bs (read n bs) _ (read-Leaves n bs)
      λ a rest h. Leaves-if rest (length a == n) _ _ ([], refl) tt

pub read_text-Leaves : (bs : List ℕ) → Leaves bs (read_text bs)
unfolding read_text
read_text-Leaves bs =
    Leaves-bind bs (read_number 2 bs) _ (read_number-Leaves 2 bs)
      λ n rest h. read_full-Leaves n rest

pub read_array-Leaves : (size : ℕ) (bs : List ℕ) → Leaves bs (read_array size bs)
unfolding read_array
read_array-Leaves size bs =
    Leaves-bind bs (read_number 4 bs) _ (read_number-Leaves 4 bs) λ n rest h.
      Leaves-if rest (lt_i32 n 0 || lt_i32 (2 ^ 24) n) fail _ tt
        (Leaves-if rest (n == 0) (done [] rest) _ ([], refl) (read_full-Leaves (n * size) rest))

pub tagged-Leaves {ℓ} :
    {A : Type ℓ} (bs : List ℕ) (as_value : A → Value) (r : Read A)
    → Leaves bs r
    → Leaves bs (tagged as_value r)
tagged-Leaves bs as_value (done a rest) l = l
tagged-Leaves bs as_value fail l = l
tagged-Leaves bs as_value stuck l = l

module _ (item : ℕ → List ℕ → Read Value)
    (ends : (t : ℕ) (bs : List ℕ) → Leaves bs (item t bs)) where
  pub read_values-Leaves : (t n : ℕ) (bs : List ℕ) → Leaves bs (read_values item t n bs)
  unfolding read_values
  read_values-Leaves t zero bs = ([], refl)
  read_values-Leaves t (suc n) bs = Leaves-bind bs (item t bs) _ (ends t bs) λ v rest h.
      Leaves-bind rest (read_values item t n rest) _ (read_values-Leaves t n rest)
        λ vs rest' h'. ([], refl)

  pub read_list-Leaves : (bs : List ℕ) → Leaves bs (read_list item bs)
  unfolding read_list
  read_list-Leaves bs = Leaves-bind bs (read_byte bs) _ (read_byte-Leaves bs) λ t rest h.
      Leaves-bind rest (read_number 4 rest) _ (read_number-Leaves 4 rest) λ n rest' h'.
        Leaves-if rest' (lt_i32 n 0 || lt_i32 (2 ^ 16) n) fail _ tt (read_values-Leaves t n rest')

  -- A round for each byte is enough.
  pub read_fields-Leaves :
      (fuel : ℕ) (m : Fields) (bs : List ℕ)
      → length bs < fuel
      → Leaves bs (read_fields item fuel m bs)
  unfolding read_fields
  read_fields-Leaves zero m bs h = absurd (omega arith)
  read_fields-Leaves (suc fuel) m [] h = tt
  read_fields-Leaves (suc fuel) m (t ∷ bs) h = Leaves-cons t bs _ (
      Leaves-if bs (t == 0) _ _ ([], refl)
        (Leaves-bind bs (read_text bs) _ (read_text-Leaves bs) λ name rest k.
          Leaves-bind rest (item t rest) _ (ends t rest)
            λ v rest' k'. read_fields-Leaves fuel (set_field name v m) rest' (omega arith)))

  read_kind-Leaves : (k : Kind) (bs : List ℕ) → Leaves bs (read_kind item k bs)
  unfolding read_kind
  read_kind-Leaves Kind.end_tag bs = tt
  read_kind-Leaves Kind.byte_tag bs = tagged-Leaves bs _ _ (read_byte-Leaves bs)
  read_kind-Leaves Kind.short_tag bs = tagged-Leaves bs _ _ (read_number-Leaves 2 bs)
  read_kind-Leaves Kind.int_tag bs = tagged-Leaves bs _ _ (read_number-Leaves 4 bs)
  read_kind-Leaves Kind.long_tag bs = tagged-Leaves bs _ _ (read_number-Leaves 8 bs)
  read_kind-Leaves Kind.float_tag bs = tagged-Leaves bs _ _ (read_number-Leaves 4 bs)
  read_kind-Leaves Kind.double_tag bs = tagged-Leaves bs _ _ (read_number-Leaves 8 bs)
  read_kind-Leaves Kind.byte_array_tag bs = tagged-Leaves bs _ _ (read_array-Leaves 1 bs)
  read_kind-Leaves Kind.string_tag bs = tagged-Leaves bs _ _ (read_text-Leaves bs)
  read_kind-Leaves Kind.list_tag bs = tagged-Leaves bs _ _ (read_list-Leaves bs)
  read_kind-Leaves Kind.compound_tag bs =
      tagged-Leaves bs _ _ (read_fields-Leaves (suc (length bs)) _ bs (omega arith))
  read_kind-Leaves Kind.int_array_tag bs = tagged-Leaves bs _ _ (read_array-Leaves 4 bs)
  read_kind-Leaves Kind.long_array_tag bs = tagged-Leaves bs _ _ (read_array-Leaves 8 bs)
  read_kind-Leaves Kind.unknown bs = tt

pub read_tag-Leaves : (room t : ℕ) (bs : List ℕ) → Leaves bs (read_tag room t bs)
unfolding read_tag
read_tag-Leaves zero t bs = tt
read_tag-Leaves (suc room) t bs =
    read_kind-Leaves (read_tag room) (read_tag-Leaves room) (kind_of t) bs

as_fields-Leaves : (v : Value) (rest : List ℕ) → Leaves rest (as_fields (v, rest))
as_fields-Leaves (compound m) rest = ([], refl)
as_fields-Leaves _ rest = tt

-- On every input the reader of a block entity's NBT ends, in a map of fields or in a failure, and what it leaves of the input is an
-- end of it.
pub read_nbt-Leaves : (bs : List ℕ) → Leaves bs (read_nbt bs)
unfolding read_nbt
read_nbt-Leaves [] = tt
read_nbt-Leaves (t ∷ bs) = Leaves-cons t bs _ (
    Leaves-if bs (t == 0) _ _ ([], refl)
      (Leaves-if bs (t == 10) _ _
        (Leaves-bind bs (read_tag 33 10 bs) as_fields (read_tag-Leaves 33 10 bs)
          λ v rest h. as_fields-Leaves v rest)
        tt))
