-- ===== src/Redis/Simple.antt =====
-- A store that meets the assumptions on Redis: a dictionary of values with their deadlines.
use plaidify.Base.{
  ℕ, ◌+◌, ◌≤◌, ◌≡◌, refl, true, false, Option, none, some, ltb, if◌then◌else◌, ◌==◌, nat_eq,
  Bool-cases, inl, inr,
}
use plaidify.Base.Compare.{list_eq}
use plaidify.Base.Dict.{Dict, lookup, insert, erase, lookup-insert, lookup-erase}
use plaidify.Base.Text.{Text}
use plaidify.Redis.{Redis, is_none}

abbrev alive : {B : Type 0} → ℕ → Option (B × ℕ) → Option B
alive now none = none
alive now (some (v, deadline)) = if ltb now deadline then some v else none

module _ {B : Type 0} where
  pub read-write :
      (d : Dict Text (B × ℕ)) (t t' : ℕ) (k j : Text) (v : B) (ex : ℕ)
      → t ≤ t'
      → alive t' (lookup j (insert k (v, t + ex) d))
        ≡ (if k == j then (if ltb t' (t + ex) then some v else none) else alive t' (lookup j d))
  read-write d t t' k j v ex h =
      rw (lookup-insert k j (v, t + ex) d)
        (elim (Bool-cases (k == j)) [ inl e ↦ rw e | inr e ↦ rw e ])

  pub read-erase :
      (d : Dict Text (B × ℕ)) (t : ℕ) (k j : Text)
      → alive t (lookup j (erase k d)) ≡ (if k == j then none else alive t (lookup j d))
  read-erase d t k j =
      rw (lookup-erase k j d) (elim (Bool-cases (k == j)) [ inl e ↦ rw e | inr e ↦ rw e ])

abbrev pub simple : (B : Type 0) → Redis B
simple B = record {
  State = Dict Text (B × ℕ);
  get = λ d now k. alive now (lookup k d);
  set = λ d now k v ex. insert k (v, now + ex) d;
  set_nx = λ d now k v ex.
      if is_none (alive now (lookup k d)) then (insert k (v, now + ex) d, true) else (d, false);
  delete = λ d k. erase k d;
  get-set = read-write;
  get-delete = read-erase;
  set_nx_lem = λ d t k v ex. refl;
}
