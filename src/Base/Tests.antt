-- ===== src/Base/Tests.antt =====
-- Comparisons of C on unsigned numbers, the conditional, and the sequence of fallible steps.
use Prim.Native.Nat.{ℕ, ◌≤◌, ◌<◌, compare, Ordering}
use mathlib.Core.Path.{◌≡◌, refl}
use mathlib.Core.Logic.{◌≢◌, ◌⊎◌, inl, inr}
use mathlib.Core.Bool.{Bool, true, false}
use mathlib.Core.Option.{Option, none, some}
use native.Mathlib.Omega.{arith}

abbrev pub ltb : ℕ → ℕ → Bool
ltb a b = elim (compare a b) [ Ordering.lt ↦ true | _ ↦ false ]

abbrev pub leb : ℕ → ℕ → Bool
leb a b = elim (compare a b) [ Ordering.gt ↦ false | _ ↦ true ]

infix 50 ◌==◌
abbrev pub ◌==◌ : ℕ → ℕ → Bool
a == b = elim (compare a b) [ Ordering.eq ↦ true | _ ↦ false ]

infix 1 if◌then◌else◌
abbrev pub if◌then◌else◌ {ℓ} : {A : Type ℓ} → Bool → A → A → A
if true then x else y = x
if false then x else y = y

-- `none` is undefined behaviour: an access outside an object, or through a null pointer.
infixl 5 ◌>>=◌
abbrev pub ◌>>=◌ {ℓ κ} : {A : Type ℓ} {B : Type κ} → Option A → (A → Option B) → Option B
none >>= f = none
some a >>= f = f a

-- Two sequences, or two branches, that are the same piece by piece
module _ {A B : Type 0} where
  pub bind_same :
      (m : Option A) {f g : A → Option B} → ((a : A) → f a ≡ g a) → (m >>= f) ≡ (m >>= g)
  bind_same none h = refl
  bind_same (some a) h = h a

module _ {B : Type 0} where
  pub branch_same :
      (b : Bool) {x y u v : Option B}
      → x ≡ u
      → y ≡ v
      → elim b as (λ _. Option B) [ false ↦ x | true ↦ y ]
        ≡ elim b as (λ _. Option B) [ false ↦ u | true ↦ v ]
  branch_same false e f = e
  branch_same true e f = f

pub some_inj {ℓ} : {A : Type ℓ} {u v : A} → some u ≡ some v → u ≡ v
some_inj e = cc

pub ltb-eq_true : (a b : ℕ) → a < b → ltb a b ≡ true
ltb-eq_true a b h = ground arith

pub ltb-eq_false : (a b : ℕ) → b ≤ a → ltb a b ≡ false
ltb-eq_false a b h = ground arith

pub leb-eq_true : (a b : ℕ) → a ≤ b → leb a b ≡ true
leb-eq_true a b h = ground arith

pub leb-eq_false : (a b : ℕ) → b < a → leb a b ≡ false
leb-eq_false a b h = ground arith

pub ==-refl : (a : ℕ) → (a == a) ≡ true
==-refl a = ground arith

pub ==-eq_true : (a b : ℕ) → a ≡ b → (a == b) ≡ true
==-eq_true a b h = ground arith

pub ==-eq_false : (a b : ℕ) → a ≢ b → (a == b) ≡ false
==-eq_false a b h = ground arith

pub ==→eq : (a b : ℕ) → (a == b) ≡ true → a ≡ b
==→eq a b h = ground arith

pub ltb→lt : (a b : ℕ) → ltb a b ≡ true → a < b
ltb→lt a b h = ground arith

pub ltb→le : (a b : ℕ) → ltb a b ≡ false → b ≤ a
ltb→le a b h = ground arith

pub leb→le : (a b : ℕ) → leb a b ≡ true → a ≤ b
leb→le a b h = ground arith

pub leb→lt : (a b : ℕ) → leb a b ≡ false → b < a
leb→lt a b h = ground arith

pub Bool-cases : (b : Bool) → (b ≡ true) ⊎ (b ≡ false)
Bool-cases true = inl refl
Bool-cases false = inr refl

pub Option-cases {ℓ} : {A : Type ℓ} (o : Option A) → (o ≡ none) ⊎ ((a : A) × (o ≡ some a))
Option-cases none = inl refl
Option-cases (some a) = inr (a, refl)
