-- ===== src/AccessJobs/Dispatch/Payload.antt =====
-- src/access_jobs.py: the credentials in a dispatch payload are encrypted. The cipher is no part of
-- the module.
use plaidify.Base.{
  ◌≡◌, ◌≢◌, refl, sym, ◌∙◌, Bool, true, false, ◌||◌, Option, none, some, if◌then◌else◌, ◌==◌,
  ==_iff, ==_refl, nat_eq, Bool-cases, Option-cases, inl, inr,
}
use plaidify.Base.Compare.{list_eq}
use plaidify.Base.Dict.{Dict, lookup, insert, erase, lookup-insert, lookup-erase}
use plaidify.Base.Text.{Text, lit}
use plaidify.Json.{Value, null, bool, num, text, arr, obj}

-- `encrypt_credential` and `decrypt_credential` of src/database.py.
pub record Cipher : Type 0 where
  pub encrypt : Value → Value
  -- `none` is an error of the cipher's
  pub decrypt : Value → Option Value
  pub not_null : (v : Value) → encrypt v ≢ null
  pub decrypt-encrypt : (v : Value) → decrypt (encrypt v) ≡ some v

-- A key is there with a value that is not `None`.
abbrev pub is_given : Option Value → Option Value
is_given none = none
is_given (some null) = none
is_given (some v) = some v

abbrev pub username : Text
username = lit "username"

abbrev pub password : Text
password = lit "password"

abbrev pub username_encrypted : Text
username_encrypted = lit "username_encrypted"

abbrev pub password_encrypted : Text
password_encrypted = lit "password_encrypted"

not_null_given : (v : Value) → v ≢ null → is_given (some v) ≡ some v
not_null_given null h = absurd (h refl)
not_null_given (bool b) h = refl
not_null_given (num n) h = refl
not_null_given (text t) h = refl
not_null_given (arr vs) h = refl
not_null_given (obj fs) h = refl

module _ (K : Cipher) where
  -- One round of the loop of `_encrypt_dispatch_kwargs`.
  unfoldable pub encrypt_field : Text → Text → Dict Text Value → Dict Text Value
  encrypt_field name name_encrypted d = put (is_given (lookup name d))
    where
      put : Option Value → Dict Text Value
      put none = erase name d
      put (some v) = insert name_encrypted (Cipher.encrypt K v) (erase name d)

  unfoldable pub encrypt_dispatch_kwargs : Dict Text Value → Dict Text Value
  unfolding encrypt_field
  encrypt_dispatch_kwargs d =
      encrypt_field password password_encrypted (encrypt_field username username_encrypted d)

  -- One round of the loop of `_decrypt_dispatch_kwargs`.
  unfoldable pub decrypt_field : Text → Text → Dict Text Value → Option (Dict Text Value)
  decrypt_field name name_encrypted d = put (is_given (lookup name_encrypted d))
    where
      decrypted : Option Value → Option (Dict Text Value)
      decrypted none = none
      decrypted (some v) = some (insert name v (erase name_encrypted d))

      put : Option Value → Option (Dict Text Value)
      put none = some (erase name_encrypted d)
      put (some c) = decrypted (Cipher.decrypt K c)

  unfoldable pub decrypt_dispatch_kwargs : Dict Text Value → Option (Dict Text Value)
  unfolding decrypt_field
  decrypt_dispatch_kwargs d = then_password (decrypt_field username username_encrypted d)
    where
      then_password : Option (Dict Text Value) → Option (Dict Text Value)
      then_password none = none
      then_password (some d') = decrypt_field password password_encrypted d'

  -- What a key maps to after a field is encrypted.
  lookup-encrypt_field :
      (name name_encrypted k : Text) (d : Dict Text Value)
      → (name_encrypted == k) ≡ false
      → lookup k (encrypt_field name name_encrypted d) ≡ (if name == k then none else lookup k d)
  unfolding encrypt_field
  lookup-encrypt_field name name_encrypted k d n = elim (Option-cases (is_given (lookup name d))) [
    | inl e ↦ rw (e, lookup-erase name k d) refl
    | inr (v, e) ↦
        rw
          (
            e,
            lookup-insert name_encrypted k (Cipher.encrypt K v) (erase name d),
            n,
            lookup-erase name k d,
          )
          refl
  ]

  -- The encrypted field itself.
  given_encrypted : (v : Value) → is_given (some (Cipher.encrypt K v)) ≡ some (Cipher.encrypt K v)
  given_encrypted v = not_null_given (Cipher.encrypt K v) (Cipher.not_null K v)

  abbrev encrypted_or : Option Value → Option Value → Option Value
  encrypted_or none old = old
  encrypted_or (some v) old = some (Cipher.encrypt K v)

  lookup-encrypt_field_own :
      (name name_encrypted : Text) (d : Dict Text Value)
      → (name == name_encrypted) ≡ false
      → lookup name_encrypted (encrypt_field name name_encrypted d)
        ≡ encrypted_or (is_given (lookup name d)) (lookup name_encrypted d)
  unfolding encrypt_field
  lookup-encrypt_field_own name ne d n = elim (Option-cases (is_given (lookup name d))) [
    | inl e ↦ rw (e, lookup-erase name ne d, n) refl
    | inr (v, e) ↦ rw (e, lookup-insert ne ne (Cipher.encrypt K v) (erase name d), ==_refl ne) refl
  ]

  abbrev over : Option Value → Bool → Option Value → Option Value
  over none b old = old
  over (some v) b old = if b then some v else old

  -- A field that was encrypted, or that was not given, is decrypted again.
  decrypt_field-encrypted :
      (name ne : Text) (given : Option Value) (d : Dict Text Value)
      → lookup ne d ≡ encrypted_or given none
      → (d' : Dict Text Value) × (decrypt_field name ne d ≡ some d')
        × ((k : Text) → lookup k d' ≡ over given (name == k) (if ne == k then none else lookup k d))
  unfolding decrypt_field
  decrypt_field-encrypted name ne none d h = rw h (erase ne d, refl, λ k. lookup-erase ne k d)
  decrypt_field-encrypted name ne (some v) d h =
      rw (h, given_encrypted v, Cipher.decrypt-encrypt K v)
        (
          insert name v (erase ne d),
          refl,
          λ k. rw (lookup-insert name k v (erase ne d), lookup-erase ne k d) refl,
        )

  kept_old : (given old : Option Value) → over given false old ≡ old
  kept_old none old = refl
  kept_old (some v) old = refl

  taken_new : (given : Option Value) → over given true none ≡ given
  taken_new none = refl
  taken_new (some v) = refl

  abbrev both : Dict Text Value → Dict Text Value
  both d = encrypt_field password password_encrypted (encrypt_field username username_encrypted d)

  user_encrypted :
      (d : Dict Text Value)
      → lookup username_encrypted d ≡ none
      → lookup username_encrypted (both d) ≡ encrypted_or (is_given (lookup username d)) none
  user_encrypted d h =
      lookup-encrypt_field password password_encrypted username_encrypted
        (encrypt_field username username_encrypted d) refl
      ∙ (lookup-encrypt_field_own username username_encrypted d refl ∙ rw h refl)

  pass_encrypted :
      (d : Dict Text Value)
      → lookup password_encrypted d ≡ none
      → lookup password_encrypted (both d) ≡ encrypted_or (is_given (lookup password d)) none
  pass_encrypted d h =
      let d1 = encrypt_field username username_encrypted d in
      let word = lookup-encrypt_field username username_encrypted password d refl in
      let own = lookup-encrypt_field username username_encrypted password_encrypted d refl ∙ h in
      lookup-encrypt_field_own password password_encrypted d1 refl ∙ rw (word, own) refl

  lookup-both :
      (d : Dict Text Value) (k : Text)
      → (username_encrypted == k) ≡ false
      → (password_encrypted == k) ≡ false
      → lookup k (both d)
        ≡ (if password == k then none else if username == k then none else lookup k d)
  lookup-both d k nu np =
      rw
        (
          lookup-encrypt_field password password_encrypted k
              (encrypt_field username username_encrypted d) np,
          lookup-encrypt_field username username_encrypted k d nu,
        )
        refl

  -- What the two rounds of decryption make of a key.
  restored :
      (d : Dict Text Value)
      → lookup username_encrypted d ≡ none
      → lookup password_encrypted d ≡ none
      → (k : Text)
      → over (is_given (lookup password d)) (password == k) (
          if password_encrypted == k
          then none
          else over
              (is_given (lookup username d))
              (username == k)
              (if username_encrypted == k then none else lookup k (both d)))
        ≡ (if (username == k) || (password == k) then is_given (lookup k d) else lookup k d)
  restored d no_user no_pass k = elim (Bool-cases (username_encrypted == k)) [
    | inl e ↦
        rw (sym ((==_iff username_encrypted k).0 e)) (kept_old _ _ ∙ kept_old _ _ ∙ sym no_user)
    | inr nu ↦ elim (Bool-cases (password_encrypted == k)) [
      | inl e ↦ rw (sym ((==_iff password_encrypted k).0 e)) (kept_old _ _ ∙ sym no_pass)
      | inr np ↦ elim (Bool-cases (username == k)) [
        | inl e ↦ rw (sym ((==_iff username k).0 e)) (
            rw (lookup-both d username refl refl)
              (kept_old _ _ ∙ taken_new (is_given (lookup username d))))
        | inr n ↦ elim (Bool-cases (password == k)) [
          | inl e ↦ rw (sym ((==_iff password k).0 e)) (
              rw
                (
                  kept_old (is_given (lookup username d)) (lookup password (both d)),
                  lookup-both d password refl refl,
                )
                (taken_new (is_given (lookup password d))))
          | inr m ↦ rw (nu, np, lookup-both d k nu np, n, m) (kept_old _ _ ∙ kept_old _ _)
        ]
      ]
    ]
  ]

  -- The payload carries no credential in the clear. If the arguments had no key of an encrypted
  -- credential, they are decrypted again: a credential is there as it was given, a missing one and
  -- `None` stay out, and every other key has its value.
  pub decrypt-encrypt_dispatch_kwargs :
      (d : Dict Text Value)
      → lookup username_encrypted d ≡ none
      → lookup password_encrypted d ≡ none
      → (lookup username (encrypt_dispatch_kwargs d) ≡ none)
        × (lookup password (encrypt_dispatch_kwargs d) ≡ none)
        × ((d' : Dict Text Value) × (decrypt_dispatch_kwargs (encrypt_dispatch_kwargs d) ≡ some d')
            × ((k : Text)
                → lookup k d' ≡ (
                    if (username == k) || (password == k)
                    then is_given (lookup k d)
                    else lookup k d)))
  unfolding encrypt_dispatch_kwargs decrypt_dispatch_kwargs
  decrypt-encrypt_dispatch_kwargs d no_user no_pass =
      let d1 = encrypt_field username username_encrypted d in
      let d2 = encrypt_field password password_encrypted d1 in
      let no_name =
        lookup-encrypt_field password password_encrypted username d1 refl
        ∙ lookup-encrypt_field username username_encrypted username d refl in
      let no_word = lookup-encrypt_field password password_encrypted password d1 refl in
      let (d3, first, at3) =
        decrypt_field-encrypted username username_encrypted (is_given (lookup username d)) d2
          (user_encrypted d no_user) in
      let (d4, second, at4) =
        decrypt_field-encrypted password password_encrypted (is_given (lookup password d)) d3 (
          at3 password_encrypted
          ∙ kept_old (is_given (lookup username d)) _
          ∙ pass_encrypted d no_pass) in
      (
        no_name,
        no_word,
        (d4, rw first second, λ k. at4 k ∙ rw (at3 k) (restored d no_user no_pass k)),
      )
