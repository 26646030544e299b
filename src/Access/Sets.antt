-- ===== src/Access/Sets.antt =====
-- src/dependencies.py: Python's sets of texts, as lists: only membership counts.
use plaidify.Base.{
  ◌≡◌, refl, sym, subst, ap, ◌∙◌, Bool, true, false, ◌&&◌, ◌||◌, List, [], ◌∷◌, if◌then◌else◌, ◌==◌,
  ==_iff, nat_eq, Bool-cases, inl, inr, filterb,
}
use plaidify.Base.Compare.{list_eq}
use plaidify.Base.Text.{Text}
use plaidify.LinkSessions.Origin.{contains}
use plaidify.AccessJobs.Job.{sorted, insert_sorted, text_le}

-- `set(xs)`
unfoldable pub to_set : List Text → List Text
to_set [] = []
to_set (x ∷ xs) = let rest = to_set xs in if contains x rest then rest else x ∷ rest

-- `left & right`
unfoldable pub intersection : List Text → List Text → List Text
intersection left right = filterb (λ x. contains x right) left

-- `not (left - right)`
unfoldable pub subset : List Text → List Text → Bool
subset [] right = true
subset (x ∷ left) right = contains x right && subset left right

contains-congr : (x y : Text) (ys : List Text) → (x == y) ≡ true → contains x ys ≡ contains y ys
contains-congr x y ys e = ap (λ t. contains t ys) ((==_iff x y).0 e)

pub contains-to_set : (x : Text) (xs : List Text) → contains x (to_set xs) ≡ contains x xs
unfolding to_set contains
contains-to_set x [] = refl
contains-to_set x (y ∷ ys) = elim (Bool-cases (contains y (to_set ys))) [
  | inl e ↦ elim (Bool-cases (y == x)) [
    | inl f ↦ rw (e, f) (sym (contains-congr y x (to_set ys) f) ∙ e)
    | inr f ↦ rw (e, f) (contains-to_set x ys)
  ]
  | inr e ↦ elim (Bool-cases (y == x)) [
    | inl f ↦ rw (e, f) refl
    | inr f ↦ rw (e, f) (contains-to_set x ys)
  ]
]

pub contains-filterb :
    (x : Text) (p : Text → Bool) (xs : List Text)
    → contains x (filterb p xs) ≡ (contains x xs && p x)
unfolding contains
contains-filterb x p [] = refl
contains-filterb x p (y ∷ ys) = elim (Bool-cases (p y)) [
  | inl e ↦ elim (Bool-cases (y == x)) [
    | inl f ↦ rw (e, f) (sym (subst (λ t. p t ≡ true) ((==_iff y x).0 f) e))
    | inr f ↦ rw (e, f) (contains-filterb x p ys)
  ]
  | inr e ↦ elim (Bool-cases (y == x)) [
    | inl f ↦
        let off = subst (λ t. p t ≡ false) ((==_iff y x).0 f) e in
        rw (e, f) (contains-filterb x p ys ∙ rw off (and_false (contains x ys)))
    | inr f ↦ rw (e, f) (contains-filterb x p ys)
  ]
]
  where
    and_false : (b : Bool) → (b && false) ≡ false
    and_false true = refl
    and_false false = refl

pub contains-intersection :
    (x : Text) (left right : List Text)
    → contains x (intersection left right) ≡ (contains x left && contains x right)
unfolding intersection
contains-intersection x left right = contains-filterb x (λ y. contains y right) left

contains-insert_sorted :
    (x s : Text) (ts : List Text) → contains x (insert_sorted s ts) ≡ ((s == x) || contains x ts)
unfolding contains
contains-insert_sorted x s [] = refl
contains-insert_sorted x s (t ∷ ts) = elim (Bool-cases (text_le s t)) [
  | inl e ↦ rw e refl
  | inr e ↦ rw e (
      ap (λ b. (t == x) || b) (contains-insert_sorted x s ts)
      ∙ swap (t == x) (s == x) (contains x ts))
]
  where
    swap : (a b c : Bool) → (a || (b || c)) ≡ (b || (a || c))
    swap true true c = refl
    swap true false c = refl
    swap false b c = refl

pub contains-sorted : (x : Text) (ts : List Text) → contains x (sorted ts) ≡ contains x ts
unfolding sorted contains
contains-sorted x [] = refl
contains-sorted x (t ∷ ts) =
    contains-insert_sorted x t (sorted ts) ∙ ap (λ b. (t == x) || b) (contains-sorted x ts)

-- A member of a subset.
pub subset-contains :
    (x : Text) (left right : List Text)
    → subset left right ≡ true
    → contains x left ≡ true
    → contains x right ≡ true
unfolding subset contains
subset-contains x [] right h m = absurd cc
subset-contains x (y ∷ left) right h m = elim (Bool-cases (contains y right)) [
  | inr e ↦ let h' = rw e at h in absurd cc
  | inl e ↦ elim (Bool-cases (y == x)) [
    | inl f ↦ sym (contains-congr y x right f) ∙ e
    | inr f ↦ subset-contains x left right (rw e at h) (rw f at m)
  ]
]
