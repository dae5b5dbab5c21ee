-- ===== src/Serve/Auth/Accepts.antt =====
-- Which requests `checkCredentials` accepts.
use forwardproxy.Base.{
  ℕ, Bool, true, false, ◌||◌, List, [], ◌∷◌, Option, none, some, Bytes, codes, equal, equal_iff,
  ◌≡◌, ◌≢◌, ◌↔◌, refl, sym, ap, ◌∙◌, All, Bool-cases, inl, inr,
}
use forwardproxy.Serve.Auth.{
  Codec, Checked, accepts, accepted_user, rejected, find_credentials, check_fields,
  check_credentials,
}
use forwardproxy.Serve.Headers.{Header, get}
use forwardproxy.Std.Strings.{index_byte, split, to_lower}

first_field : {a b c d : Bytes} → (a ∷ b ∷ []) ≡ (c ∷ d ∷ []) → a ≡ c
first_field e = cc

second_field : {a b c d : Bytes} → (a ∷ b ∷ []) ≡ (c ∷ d ∷ []) → b ≡ d
second_field e = cc

module _ (codec : Codec) where
  -- Credentials as `EncodeAuthCredentials` makes them: a colon ends the user's name.
  abbrev pub HasColon : Bytes → Type 0
  HasColon creds = index_byte b':' (codec.decode creds).0 ≢ none

  abbrev pub is_configured : Bytes → List Bytes → Bool
  is_configured sent [] = false
  is_configured sent (c ∷ configured) = equal c sent || is_configured sent configured

  abbrev pub is_accepted : Checked → Bool
  is_accepted (accepts _) = true
  is_accepted _ = false

  rejected-is_accepted : (out : Bytes × Option Bytes) → is_accepted (rejected codec out) ≡ false
  unfolding rejected
  rejected-is_accepted (cred, some e) = refl
  rejected-is_accepted (cred, none) = refl

  found-is_accepted :
      (cred : Bytes) (at : Option ℕ) → at ≢ none → is_accepted (accepted_user cred at) ≡ true
  unfolding accepted_user
  found-is_accepted cred none h = absurd (h refl)
  found-is_accepted cred (some i) h = refl

  find_credentials-is_configured :
      (configured : List Bytes) (sent : Bytes)
      → All HasColon configured
      → is_accepted (find_credentials codec configured sent) ≡ is_configured sent configured
  unfolding find_credentials
  find_credentials-is_configured [] sent h = rejected-is_accepted (codec.decode sent)
  find_credentials-is_configured (c ∷ configured) sent h = elim (Bool-cases (equal c sent)) [
    | inl same ↦ rw same (found-is_accepted _ _ h.0)
    | inr different ↦ rw different (find_credentials-is_configured configured sent h.1)
  ]

  -- The two fields of a good `Proxy-Authorization`.
  GoodFields : List Bytes → List Bytes → Type 0
  GoodFields configured fields =
      (kind sent : Bytes) × (fields ≡ kind ∷ sent ∷ [])
      × (to_lower kind ≡ codes "basic")
      × (is_configured sent configured ≡ true)

  two_fields_iff :
      (configured : List Bytes) (kind sent : Bytes)
      → All HasColon configured
      → (is_accepted (check_fields codec configured (kind ∷ sent ∷ [])) ≡ true)
        ↔ GoodFields configured (kind ∷ sent ∷ [])
  unfolding check_fields GoodFields
  two_fields_iff configured kind sent colons =
      let found = find_credentials-is_configured configured sent colons in
      let kinds = equal_iff (to_lower kind) (codes "basic") in
      elim (Bool-cases (equal (to_lower kind) (codes "basic"))) [
        | inl basic ↦ rw basic (
          (λ e. (kind, sent, refl, kinds.0 basic, sym found ∙ e)),
          λ (k, s, e, _, f). found ∙ rw (second_field e) f,
        )
        | inr different ↦ rw different (
          (λ e. absurd (cc)),
          λ (k, s, e, b, f). absurd (cc (different, kinds.1 (ap to_lower (first_field e) ∙ b))),
        )
      ]

  fields_iff :
      (configured fields : List Bytes)
      → All HasColon configured
      → (is_accepted (check_fields codec configured fields) ≡ true) ↔ GoodFields configured fields
  unfolding check_fields GoodFields
  fields_iff configured [] colons = (λ e. absurd (cc), λ (k, s, e, _, _). absurd (cc))
  fields_iff configured (a ∷ []) colons = (λ e. absurd (cc), λ (k, s, e, _, _). absurd (cc))
  fields_iff configured (kind ∷ sent ∷ []) colons = two_fields_iff configured kind sent colons
  fields_iff configured (a ∷ b ∷ c ∷ d) colons = (λ e. absurd (cc), λ (k, s, e, _, _). absurd (cc))

  -- With credentials configured as `EncodeAuthCredentials` makes them, `checkCredentials` accepts a
  -- request exactly when its `Proxy-Authorization` is two fields with one space between them, the
  -- first `basic` in any case and the second equal to configured credentials.
  pub check_credentials-accepts_iff :
      (configured : List Bytes) (h : Header)
      → All HasColon configured
      → (is_accepted (check_credentials codec configured h) ≡ true) ↔ (
          (kind sent : Bytes) × (split b' ' (get (codes "Proxy-Authorization") h)
            ≡ kind ∷ sent ∷ [])
          × (to_lower kind ≡ codes "basic")
          × (is_configured sent configured ≡ true))
  unfolding check_credentials GoodFields
  check_credentials-accepts_iff configured h colons =
      fields_iff configured (split b' ' (get (codes "Proxy-Authorization") h)) colons
