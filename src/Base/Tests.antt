-- ===== src/Base/Tests.antt =====
-- Boolean tests, on numbers and on texts, and the conditional.
use Prim.Native.Nat.{ℕ, ◌≤◌, ◌<◌, compare, Ordering}
use mathlib.Core.Path.{◌≡◌, refl}
use mathlib.Core.Logic.{◌↔◌, ◌⊎◌, inl, inr}
use mathlib.Core.Bool.{Bool, true, false}
use mathlib.Core.Option.{Option, none, some}
use native.Mathlib.Omega.{arith}

-- These compute to `compare`, which `ground` and `grind` read with no lemma listed.
abbrev pub ltb : ℕ → ℕ → Bool
ltb a b = elim (compare a b) [ Ordering.lt ↦ true | _ ↦ false ]

abbrev pub leb : ℕ → ℕ → Bool
leb a b = elim (compare a b) [ Ordering.gt ↦ false | _ ↦ true ]

abbrev pub nat_eqb : ℕ → ℕ → Bool
nat_eqb a b = elim (compare a b) [ Ordering.eq ↦ true | _ ↦ false ]

infix 1 if◌then◌else◌
abbrev pub if◌then◌else◌ {ℓ} : {A : Type ℓ} → Bool → A → A → A
if true then x else y = x
if false then x else y = y

pub ltb→lt : (a b : ℕ) → ltb a b ≡ true → a < b
ltb→lt a b h = ground arith

pub lt→ltb : (a b : ℕ) → a < b → ltb a b ≡ true
lt→ltb a b h = ground arith

pub leb→le : (a b : ℕ) → leb a b ≡ true → a ≤ b
leb→le a b h = ground arith

-- Types whose values Python's `==` compares: the test holds of a value and itself, and of no others.
pub record Eq {ℓ} (V : Type ℓ) : Type ℓ where
  pub eqb : V → V → Bool
  pub eqb_sound : {u v : V} → eqb u v ≡ true → u ≡ v
  pub eqb_refl : (v : V) → eqb v v ≡ true

module _ {ℓ} {V : Type ℓ} ⦃eq : Eq V⦄ where
  infix 50 ◌==◌
  abbrev pub ◌==◌ : V → V → Bool
  u == v = eq.eqb u v

  pub ==_refl : (v : V) → (v == v) ≡ true
  ==_refl v = eq.eqb_refl v

  pub ==_iff : (u v : V) → ((u == v) ≡ true) ↔ (u ≡ v)
  ==_iff u v = (eq.eqb_sound, λ p. rw p (eq.eqb_refl v))

pub nat_eqb_sound : {m n : ℕ} → nat_eqb m n ≡ true → m ≡ n
nat_eqb_sound {m} {n} h = ground arith

pub nat_eqb_refl : (n : ℕ) → nat_eqb n n ≡ true
nat_eqb_refl n = ground arith

instance abbrev pub nat_eq : Eq ℕ
nat_eq = record { eqb = nat_eqb; eqb_sound = nat_eqb_sound; eqb_refl = nat_eqb_refl }

-- To split on a computed value and keep the equation.
pub Bool-cases : (b : Bool) → (b ≡ true) ⊎ (b ≡ false)
Bool-cases true = inl refl
Bool-cases false = inr refl

pub Option-cases {ℓ} : {A : Type ℓ} (o : Option A) → (o ≡ none) ⊎ ((a : A) × (o ≡ some a))
Option-cases none = inl refl
Option-cases (some a) = inr (a, refl)
