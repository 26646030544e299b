-- ===== src/SessionStore/Evict/Bound.antt =====
-- src/session_store.py: after an eviction a store is within its limit.
use mathlib.Core.Option.{none-ne-some}
use plaidify.Base.{
  ℕ, zero, suc, ◌+◌, ◌-◌, ◌≤◌, ◌≡◌, ◌≢◌, refl, sym, ap, ◌∙◌, Bool, true, false, none, some, List,
  [], ◌∷◌, length, take, arith, length-take, leb, if◌then◌else◌, ◌==◌, ==_iff, ==_refl, nat_eq,
  Bool-cases, inl, inr,
}
use plaidify.Base.Compare.{list_eq}
use plaidify.Base.Dict.{Dict, lookup, erase, erase_all, keys, lookup-erase}
use plaidify.Base.Text.{Text}
use plaidify.SessionStore.Evict.{
  selected, insert_by, sort_by, age_of, evict_oldest, evict_expired, evict_first,
}

length-insert_by :
    (age : Text → ℕ) (k : Text) (ks : List Text) → length (insert_by age k ks) ≡ suc (length ks)
length-insert_by age k [] = refl
length-insert_by age k (j ∷ ks) = ground (arith, length-insert_by age k ks)

length-sort : (age : Text → ℕ) (ks : List Text) → length (sort_by age ks) ≡ length ks
length-sort age [] = refl
length-sort age (k ∷ ks) =
    omega (arith, length-insert_by age k (sort_by age ks), length-sort age ks)

false_ne_true : false ≢ true
false_ne_true e = cc

flip_false : (a b : Text) → (a == b) ≡ false → (b == a) ≡ false
flip_false a b h = elim (Bool-cases (b == a)) [
  | inl e ↦ absurd (false_ne_true (sym h ∙ (==_iff a b).1 (sym ((==_iff b a).0 e))))
  | inr e ↦ e
]

module _ {V : Type 0} where
  -- Python's dictionaries hold each key once.
  abbrev pub Uniq : Dict Text V → Type 0
  Uniq [] = Unit
  Uniq ((k, v) ∷ d) = (lookup k d ≡ none) × Uniq d

  erase_absent : (k : Text) (d : Dict Text V) → lookup k d ≡ none → erase k d ≡ d
  unfolding lookup erase
  erase_absent k [] h = refl
  erase_absent k ((j, w) ∷ d) h = ground (arith, erase_absent k d)

  pub length-erase :
      (k : Text) (v : V) (d : Dict Text V)
      → Uniq d
      → lookup k d ≡ some v
      → length (erase k d) + 1 ≡ length d
  unfolding lookup erase
  length-erase k v [] u h = absurd (none-ne-some v h)
  length-erase k v ((j, w) ∷ d) u h = elim (Bool-cases (j == k)) [
    | inl e ↦
        let same = (==_iff j k).0 e in
        rw e
          (ap (λ (x : Dict Text V). length x + 1) (erase_absent k d (rw same at u.0)) ∙ omega arith)
    | inr e ↦ rw e (omega (arith, length-erase k v d u.1 (rw e at h)))
  ]

  erase-Uniq : (k : Text) (d : Dict Text V) → Uniq d → Uniq (erase k d)
  unfolding erase
  erase-Uniq k [] u = tt
  erase-Uniq k ((j, w) ∷ d) u = elim (Bool-cases (j == k)) [
    | inl e ↦ rw e (erase-Uniq k d u.1)
    | inr e ↦ rw e (gone (k == j), erase-Uniq k d u.1)
  ]
    where
      gone : (b : Bool) → lookup j (erase k d) ≡ none
      gone b = lookup-erase k j d ∙ either (k == j)
        where
          either : (c : Bool) → (if c then none else lookup j d) ≡ none
          either true = refl
          either false = u.0

  -- Keys that are taken out one after the other, each still there when its turn comes.
  abbrev pub Picks : List Text → Dict Text V → Type 0
  Picks [] d = Unit
  Picks (k ∷ ks) d = ((v : V) × (lookup k d ≡ some v)) × Picks ks (erase k d)

  Picks-length :
      (ks : List Text) (d : Dict Text V)
      → Uniq d
      → Picks ks d
      → length (erase_all ks d) + length ks ≡ length d
  unfolding erase_all
  Picks-length [] d u p = omega arith
  Picks-length (k ∷ ks) d u ((v, h), p) =
      omega (arith, Picks-length ks (erase k d) (erase-Uniq k d u) p, length-erase k v d u h)

  Picks-take : (n : ℕ) (ks : List Text) (d : Dict Text V) → Picks ks d → Picks (take n ks) d
  Picks-take zero ks d p = tt
  Picks-take (suc n) [] d p = tt
  Picks-take (suc n) (k ∷ ks) d (h, p) = (h, Picks-take n ks (erase k d) p)

  erase_comm : (a b : Text) (d : Dict Text V) → erase a (erase b d) ≡ erase b (erase a d)
  unfolding erase
  erase_comm a b [] = refl
  erase_comm a b ((j, w) ∷ d) = ground (arith, erase_comm a b d)

  Picks-keys : (d : Dict Text V) → Uniq d → Picks (keys d) d
  unfolding lookup erase
  Picks-keys [] u = tt
  Picks-keys ((k, v) ∷ d) u =
      rw (==_refl k) ((v, refl), rw (erase_absent k d u.0) (Picks-keys d u.1))

  -- What is found after an erasure was there before, under another key.
  found_before :
      (a b : Text) (v : V) (d : Dict Text V)
      → lookup b (erase a d) ≡ some v
      → ((a == b) ≡ false) × (lookup b d ≡ some v)
  found_before a b v d h = elim (Bool-cases (a == b)) [
    | inl e ↦ absurd (none-ne-some v (rw e at (sym (lookup-erase a b d) ∙ h)))
    | inr e ↦ (e, rw e at (sym (lookup-erase a b d) ∙ h))
  ]

  Picks-swap :
      (a b : Text) (ks : List Text) (d : Dict Text V) → Picks (a ∷ b ∷ ks) d → Picks (b ∷ a ∷ ks) d
  Picks-swap a b ks d ((v, h), ((w, g), p)) =
      let (e, before) = found_before a b w d g in
      ((w, before), ((v, rw (lookup-erase b a d, flip_false a b e) h), rw (erase_comm a b d) p))

  Picks-insert :
      (age : Text → ℕ) (k : Text) (ks : List Text) (d : Dict Text V)
      → Picks (k ∷ ks) d
      → Picks (insert_by age k ks) d
  Picks-insert age k [] d p = p
  Picks-insert age k (j ∷ ks) d p = elim (Bool-cases (leb (age k) (age j))) [
    | inl e ↦ rw e p
    | inr e ↦ let q = Picks-swap k j ks d p in rw e (q.0, Picks-insert age k ks (erase j d) q.1)
  ]

  Picks-sort :
      (age : Text → ℕ) (ks : List Text) (d : Dict Text V) → Picks ks d → Picks (sort_by age ks) d
  Picks-sort age [] d p = p
  Picks-sort age (k ∷ ks) d p =
      Picks-insert age k (sort_by age ks) d (p.0, Picks-sort age ks (erase k d) p.1)

  length-keys : (d : Dict Text V) → length (keys d) ≡ length d
  length-keys [] = refl
  length-keys ((k, v) ∷ d) = omega (arith, length-keys d)

  taking :
      (n : ℕ) (ks : List Text) (d : Dict Text V)
      → Uniq d
      → Picks ks d
      → length ks ≡ length d
      → length (erase_all (take n ks) d) ≡ length d - n
  taking n ks d u p e =
      omega (arith, Picks-length (take n ks) d u (Picks-take n ks d p), length-take n ks)

  pub erase_all-Uniq : (ks : List Text) (d : Dict Text V) → Uniq d → Uniq (erase_all ks d)
  unfolding erase_all
  erase_all-Uniq [] d u = u
  erase_all-Uniq (k ∷ ks) d u = erase_all-Uniq ks (erase k d) (erase-Uniq k d u)

  oldest-le :
      (created : V → ℕ) (limit : ℕ) (d : Dict Text V)
      → Uniq d
      → length (evict_oldest created limit d) ≤ limit
  unfolding evict_oldest
  oldest-le created limit d u =
      let age = age_of created d in
      let cut =
        taking (length d - limit) (sort_by age (keys d)) d u
          (Picks-sort age (keys d) d (Picks-keys d u)) (length-sort age (keys d) ∙ length-keys d) in
      ground (arith, cut)

  -- After the eviction by age no more entries are left than the limit allows.
  pub evict_expired-le :
      (expired : V → Bool) (created : V → ℕ) (limit : ℕ) (d : Dict Text V)
      → Uniq d
      → length (evict_expired expired created limit d) ≤ limit
  unfolding evict_expired
  evict_expired-le expired created limit d u =
      oldest-le created limit _ (erase_all-Uniq (selected expired d) d u)

  -- The same for the eviction in the order of insertion.
  pub evict_first-le : (limit : ℕ) (d : Dict Text V) → Uniq d → length (evict_first limit d) ≤ limit
  unfolding evict_first
  evict_first-le limit d u =
      let cut = taking (length d - limit) (keys d) d u (Picks-keys d u) (length-keys d) in
      ground (arith, cut)
