-- ===== src/Nbt/Within.antt =====
-- The readers of internal/gw/nbtjava.go with more input behind what they read.
use tachyne_gw_bedrock.Prelude.{
  ℕ, zero, suc, ◌*◌, ◌^◌, ◌<◌, ◌≡◌, refl, ap, Bool, true, false, List, [], ◌∷◌, ◌++◌, ◌||◌,
  if◌then◌else◌, lt_i32, ◌==◌, length, take, drop, arith, length-append, length-drop,
}
use mathlib.Core.Path.{ap₂}
use tachyne_gw_bedrock.Nbt.Reader.{Read, done, fail, stuck, ◌>>=◌, read_byte, read}
use tachyne_gw_bedrock.Nbt.Read.{
  Value, Values, tagged, read_number, read_full, read_text, read_array,
}
use tachyne_gw_bedrock.Nbt.Ends.{Leaves, Leaves-if, read_full-Leaves}

-- With `more` behind its input, a reader that succeeds gives the same value and leaves `more` too.
abbrev pub Same {ℓ} : {A : Type ℓ} → List ℕ → Read A → Read A → Type ℓ
Same more (done a rest) r = r ≡ done a (rest ++ more)
Same more fail r = Unit
Same more stuck r = Unit

-- The same, unless the reader came to the end of its input.
abbrev pub Within {ℓ} : {A : Type ℓ} → List ℕ → Read A → Read A → Type ℓ
Within more (done a []) r = Unit
Within more (done a (b ∷ rest)) r = r ≡ done a ((b ∷ rest) ++ more)
Within more fail r = Unit
Within more stuck r = Unit

abbrev pub Fails {ℓ} : {A : Type ℓ} → Read A → Type 0
Fails (done a rest) = ⊥
Fails fail = Unit
Fails stuck = Unit

pub Within-of_Same {ℓ} :
    {A : Type ℓ} (more : List ℕ) (r r' : Read A) → Same more r r' → Within more r r'
Within-of_Same more (done a []) r' s = tt
Within-of_Same more (done a (b ∷ rest)) r' s = s
Within-of_Same more fail r' s = tt
Within-of_Same more stuck r' s = tt

module _ {ℓ κ} {A : Type ℓ} {B : Type κ} (more : List ℕ) (f g : A × List ℕ → Read B) where
  at_end : (r' : Read B) (r : Read B) → Leaves [] r → Within more r r'
  at_end r' (done b []) l = tt
  at_end r' (done b (c ∷ rest)) (used, e) =
      absurd (omega (arith, ap length e, length-append used (c ∷ rest)))
  at_end r' fail l = tt
  at_end r' stuck l = tt

  pub Within-bind :
      (r r' : Read A)
      → Within more r r'
      → ((a : A) → Leaves [] (f (a, [])))
      → ((a : A) (b : ℕ) (rest : List ℕ)
          → Within more (f (a, b ∷ rest)) (g (a, (b ∷ rest) ++ more)))
      → Within more (r >>= f) (r' >>= g)
  Within-bind (done a []) r' w l k = at_end (r' >>= g) (f (a, [])) (l a)
  Within-bind (done a (b ∷ rest)) r' w l k = rw w (k a b rest)
  Within-bind fail r' w l k = tt
  Within-bind stuck r' w l k = tt

  pub Fails-Same : (r r' : Read B) → Fails r → Same more r r'
  Fails-Same (done b rest) r' h = elim h [ ]
  Fails-Same fail r' h = tt
  Fails-Same stuck r' h = tt

  pub Same-bind :
      (r r' : Read A)
      → Within more r r'
      → ((a : A) → Fails (f (a, [])))
      → ((a : A) (b : ℕ) (rest : List ℕ) → Same more (f (a, b ∷ rest)) (g (a, (b ∷ rest) ++ more)))
      → Same more (r >>= f) (r' >>= g)
  Same-bind (done a []) r' w l k = Fails-Same (f (a, [])) (r' >>= g) (l a)
  Same-bind (done a (b ∷ rest)) r' w l k = rw w (k a b rest)
  Same-bind fail r' w l k = tt
  Same-bind stuck r' w l k = tt

pub Fails-bind {ℓ κ} :
    {A : Type ℓ} {B : Type κ} (r : Read A) (f : A × List ℕ → Read B)
    → Leaves [] r
    → ((a : A) → Fails (f (a, [])))
    → Fails (r >>= f)
Fails-bind (done a []) f l k = k a
Fails-bind (done a (c ∷ rest)) f (used, e) k =
    absurd (omega (arith, ap length e, length-append used (c ∷ rest)))
Fails-bind fail f l k = tt
Fails-bind stuck f l k = tt

pub Within-if {ℓ} :
    {A : Type ℓ} (more : List ℕ) (b : Bool) (x y x' y' : Read A)
    → Within more x x'
    → Within more y y'
    → Within more (if b then x else y) (if b then x' else y')
Within-if more true x y x' y' u v = u
Within-if more false x y x' y' u v = v

pub Same-if {ℓ} :
    {A : Type ℓ} (more : List ℕ) (b : Bool) (x y x' y' : Read A)
    → Same more x x'
    → Same more y y'
    → Same more (if b then x else y) (if b then x' else y')
Same-if more true x y x' y' u v = u
Same-if more false x y x' y' u v = v

take_within : (n : ℕ) (bs more : List ℕ) → n < length bs → take n (bs ++ more) ≡ take n bs
take_within zero bs more h = refl
take_within (suc n) [] more h = absurd (omega arith)
take_within (suc n) (b ∷ bs) more h = ap (◌∷◌ b) (take_within n bs more (omega arith))

drop_within : (n : ℕ) (bs more : List ℕ) → n < length bs → drop n (bs ++ more) ≡ drop n bs ++ more
drop_within zero bs more h = refl
drop_within (suc n) [] more h = absurd (omega arith)
drop_within (suc n) (b ∷ bs) more h = drop_within n bs more (omega arith)

pub Within-done {ℓ} :
    {A : Type ℓ} (more : List ℕ) (a : A) (rest : List ℕ) (r' : Read A)
    → (0 < length rest → r' ≡ done a (rest ++ more))
    → Within more (done a rest) r'
Within-done more a [] r' h = tt
Within-done more a (c ∷ rest) r' h = h (omega arith)

pub read-Within :
    (more : List ℕ) (n : ℕ) (bs : List ℕ) → Within more (read n bs) (read n (bs ++ more))
read-Within more n [] = tt
read-Within more n (b ∷ bs) = Within-done more (take n (b ∷ bs)) (drop n (b ∷ bs)) _ λ h.
    let left : n < length (b ∷ bs) = omega (arith, length-drop n (b ∷ bs)) in
    ap₂ done (take_within n (b ∷ bs) more left) (drop_within n (b ∷ bs) more left)

pub read_byte-Within :
    (more : List ℕ) (bs : List ℕ) → Within more (read_byte bs) (read_byte (bs ++ more))
read_byte-Within more [] = tt
read_byte-Within more (b ∷ []) = tt
read_byte-Within more (b ∷ c ∷ bs) = refl

pub read_number-Within :
    (more : List ℕ) (w : ℕ) (bs : List ℕ)
    → Within more (read_number w bs) (read_number w (bs ++ more))
unfolding read_number
read_number-Within more w bs =
    Within-bind more _ _ (read w bs) (read w (bs ++ more)) (read-Within more w bs) (λ a. ([], refl))
      λ a b rest. refl

pub number_at_end : (f : ℕ × List ℕ → Read Values) → Leaves [] (read_number 4 [] >>= f)
unfolding read_number
number_at_end f = tt

pub read_full-Within :
    (more : List ℕ) (n : ℕ) (bs : List ℕ) → Within more (read_full n bs) (read_full n (bs ++ more))
unfolding read_full
read_full-Within more n bs =
    Within-bind more _ _ (read n bs) (read n (bs ++ more)) (read-Within more n bs)
      (λ a. Leaves-if [] (length a == n) (done a []) fail ([], refl) tt)
      λ a b rest. Within-if more (length a == n) (done a (b ∷ rest)) fail _ _ refl tt

pub read_text-Within :
    (more : List ℕ) (bs : List ℕ) → Within more (read_text bs) (read_text (bs ++ more))
unfolding read_text
read_text-Within more bs =
    Within-bind more _ _ (read_number 2 bs) (read_number 2 (bs ++ more))
      (read_number-Within more 2 bs) (λ n. read_full-Leaves n [])
      λ n b rest. read_full-Within more n (b ∷ rest)

pub read_array-Within :
    (more : List ℕ) (size : ℕ) (bs : List ℕ)
    → Within more (read_array size bs) (read_array size (bs ++ more))
unfolding read_array
read_array-Within more size bs =
    Within-bind more _ _ (read_number 4 bs) (read_number 4 (bs ++ more))
      (read_number-Within more 4 bs)
      (λ n.
        Leaves-if [] (lt_i32 n 0 || lt_i32 (2 ^ 24) n) fail _ tt
          (Leaves-if [] (n == 0) (done [] []) _ ([], refl) (read_full-Leaves (n * size) [])))
      λ n b rest. Within-if more (lt_i32 n 0 || lt_i32 (2 ^ 24) n) fail _ fail _ tt (
        Within-if more (n == 0) (done [] (b ∷ rest)) _ (done [] ((b ∷ rest) ++ more)) _ refl
          (read_full-Within more (n * size) (b ∷ rest)))

pub tagged-Within {ℓ} :
    {A : Type ℓ} (more : List ℕ) (as_value : A → Value) (r r' : Read A)
    → Within more r r'
    → Within more (tagged as_value r) (tagged as_value r')
tagged-Within more as_value (done a []) r' w = tt
tagged-Within more as_value (done a (b ∷ rest)) r' w = rw w refl
tagged-Within more as_value fail r' w = tt
tagged-Within more as_value stuck r' w = tt
