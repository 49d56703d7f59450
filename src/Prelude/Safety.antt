-- ===== src/Prelude/Safety.antt =====
-- A result that never panics, and whose value, if there is one, satisfies a predicate.
use mathlib.Core.Path.{◌≡◌, refl}
use mathlib.Core.Option.{Option, none, some}
use mathlib.Core.Bool.{Bool, true, false}
use mathlib.Core.List.{List, [], ◌∷◌}
use Prim.Native.Nat.{ℕ, zero, suc, ◌<◌}
use native.Mathlib.Omega.{arith}
use tachyne_gw_bedrock.Prelude.Tests.{if◌then◌else◌}
use tachyne_gw_bedrock.Prelude.Lists.{length, get_elem?}
use tachyne_gw_bedrock.Prelude.Results.{
  Res, ok, refuse, panic, ◌>>=◌, ◌>>◌, guard, or_refuse, or_panic,
}

abbrev pub Safe {ℓ} : {A : Type ℓ} → (A → Type 0) → Res A → Type 0
Safe P (ok a) = P a
Safe P refuse = Unit
Safe P panic = ⊥

module _ {ℓ κ} {A : Type ℓ} {B : Type κ} (Q : B → Type 0) where
  pub Safe-bind :
      (P : A → Type 0) (m : Res A) (f : A → Res B)
      → Safe P m
      → ((a : A) → m ≡ ok a → P a → Safe Q (f a))
      → Safe Q (m >>= f)
  Safe-bind P (ok a) f h k = k a refl h
  Safe-bind P refuse f h k = tt
  Safe-bind P panic f h k = h

  pub Safe-or_refuse :
      (o : Option A) (f : A → Res B)
      → ((a : A) → o ≡ some a → Safe Q (f a))
      → Safe Q (or_refuse o >>= f)
  Safe-or_refuse none f k = tt
  Safe-or_refuse (some a) f k = k a refl

  pub Safe-get_elem? :
      (xs : List A) (i : ℕ) (f : A → Res B)
      → i < length xs
      → ((a : A) → get_elem? xs i ≡ some a → Safe Q (f a))
      → Safe Q (or_panic (get_elem? xs i) >>= f)
  Safe-get_elem? [] i f h k = absurd (omega arith)
  Safe-get_elem? (x ∷ xs) zero f h k = k x refl
  Safe-get_elem? (x ∷ xs) (suc i) f h k = Safe-get_elem? xs i f (omega arith) k

module _ {κ} {B : Type κ} (Q : B → Type 0) where
  pub Safe-guard : (t : Bool) (m : Res B) → (t ≡ true → Safe Q m) → Safe Q (guard t >> m)
  Safe-guard true m k = k refl
  Safe-guard false m k = tt

  pub Safe-weaken : (P : B → Type 0) (m : Res B) → Safe P m → ((b : B) → P b → Q b) → Safe Q m
  Safe-weaken P (ok a) h k = k a h
  Safe-weaken P refuse h k = tt
  Safe-weaken P panic h k = h

  pub Safe-of_ok : (m : Res B) → ((b : B) → m ≡ ok b → Q b) → (m ≡ panic → ⊥) → Safe Q m
  Safe-of_ok (ok b) k n = k b refl
  Safe-of_ok refuse k n = tt
  Safe-of_ok panic k n = n refl

  pub Safe-at : (m : Res B) (b : B) → Safe Q m → m ≡ ok b → Q b
  Safe-at m b h e = rw e at h

  pub Safe-if : (t : Bool) (m n : Res B) → Safe Q m → Safe Q n → Safe Q (if t then m else n)
  Safe-if true m n h k = h
  Safe-if false m n h k = k
