-- ===== src/Prelude/Results.antt =====
-- The outcomes of code that can refuse or fault, with `do` for chains of it.
use mathlib.Core.Path.{◌≡◌, refl}
use mathlib.Core.Option.{Option, none, some}
use mathlib.Core.Bool.{Bool, true, false}

-- Chains of comma-ok calls.
abbrev pub and_then {ℓ κ} : {A : Type ℓ} {B : Type κ} → Option A → (A → Option B) → Option B
and_then none f = none
and_then (some a) f = f a

-- `refuse` is the code's own `return fail()`; `panic` is an index out of range.
pub data Res {ℓ} (A : Type ℓ) : Type ℓ where
  ok : A → Res A
  refuse : Res A
  panic : Res A

infixl 5 ◌>>=◌
infixl 5 ◌>>◌
abbrev pub ◌>>=◌ {ℓ κ} : {A : Type ℓ} {B : Type κ} → Res A → (A → Res B) → Res B
panic >>= next = panic
refuse >>= next = refuse
ok a >>= next = next a

abbrev pub ◌>>◌ {κ} : {B : Type κ} → Res (Unit {0}) → Res B → Res B
panic >> next = panic
refuse >> next = refuse
ok done >> next = next

-- `if !b { return fail() }`
abbrev pub guard : Bool → Res (Unit {0})
guard true = ok tt
guard false = refuse

-- A comma-ok call whose failure refuses, and an index whose failure panics.
abbrev pub or_refuse {ℓ} : {A : Type ℓ} → Option A → Res A
or_refuse none = refuse
or_refuse (some a) = ok a

abbrev pub or_panic {ℓ} : {A : Type ℓ} → Option A → Res A
or_panic none = panic
or_panic (some a) = ok a

-- Inversion of a chain that succeeds.
module _ {ℓ κ} {A : Type ℓ} {B : Type κ} where
  pub >>=-eq-ok :
      (first : Res A) (next : A → Res B) {b : B}
      → (first >>= next) ≡ ok b
      → (a : A) × (first ≡ ok a) × (next a ≡ ok b)
  >>=-eq-ok panic next e = cc
  >>=-eq-ok refuse next e = cc
  >>=-eq-ok (ok a) next e = (a, refl, e)

  pub or_refuse-eq-ok :
      (o : Option A) (next : A → Res B) {b : B}
      → (or_refuse o >>= next) ≡ ok b
      → (a : A) × (o ≡ some a) × (next a ≡ ok b)
  or_refuse-eq-ok none next e = cc
  or_refuse-eq-ok (some a) next e = (a, refl, e)

pub ok-injective {ℓ} : {A : Type ℓ} {a b : A} → ◌≡◌ {A = Res A} (ok a) (ok b) → a ≡ b
ok-injective e = cc
