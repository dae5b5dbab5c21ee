-- ===== src/Setup/Caddyfile/Credentials.antt =====
-- The credentials that `basic_auth` lines add: caddyfile.go.
use mathlib.Core.Path.{subst}
use forwardproxy.Base.{
  Option, ℕ, true, false, List, [], ◌∷◌, ◌++◌, none, some, Bytes, codes, equal, equal_refl,
  equal_iff, ◌==◌, ◌≡◌, ◌≢◌, ◌⊎◌, inl, inr, refl, ap, sym, ◌∙◌, arith, All, Bool-cases,
  Option-cases, is_nil,
}
use forwardproxy.Serve.Auth.Accepts.{HasColon, is_configured}
use forwardproxy.Serve.Auth.{Codec}
use forwardproxy.Setup.Caddyfile.Checked.{behind_cases, directives-Good, unmarshal-Good}
use forwardproxy.Setup.Caddyfile.Directives.{
  Checks, Grown, basic_auth-Checks, IsChecked, IsCredential,
}
use forwardproxy.Setup.Caddyfile.{
  Config, ConfigError, Configured, Directive, Setting, arg_err, behind, k_basic_auth, basic_auth,
  colon_in_username, configured, directives, empty_username, encode_auth_credentials, fails, kind,
  of_kind, or_empty, set_directive, unmarshal_caddyfile, zero_config,
}
use forwardproxy.Std.Strings.{has_byte, index_byte, split}

-- What the decoder undoes, and the spaces that the encoder does not write.
pub record IsBase64 (codec : Codec) : Type 0 where
  pub decode_encode : (s : Bytes) → codec.decode (codec.encode s) ≡ (s, none)
  pub no_space : (s : Bytes) → has_byte b' ' (codec.encode s) ≡ false

index_byte-some : (b : ℕ) (user rest : Bytes) → index_byte b (user ++ b ∷ rest) ≢ none
unfolding index_byte
index_byte-some b [] rest = ground arith
index_byte-some b (c ∷ user) rest = elim (Bool-cases (c == b)) [
  | inl e ↦ rw (e, index_byte) (λ q. absurd (cc))
  | inr e ↦ elim (Option-cases (index_byte b (user ++ b ∷ rest))) [
    | inl n ↦ absurd (index_byte-some b user rest n)
    | inr (i, q) ↦ rw (e, q, index_byte) (λ z. absurd (cc))
  ]
]

pub split-no_byte : (b : ℕ) (s : Bytes) → has_byte b s ≡ false → split b s ≡ s ∷ []
unfolding split has_byte
split-no_byte b [] h = refl
split-no_byte b (c ∷ s) h = elim (Bool-cases (c == b)) [
  | inl e ↦ absurd (cc (rw e at h))
  | inr e ↦ rw (e, split-no_byte b s (rw e at h)) refl
]

module _ (codec : Codec) (laws : IsBase64 codec) where
  credential-HasColon : (x : Bytes) → IsCredential codec x → HasColon codec x
  credential-HasColon x (user, pass, e, _, _) =
      rw (e, laws.decode_encode (user ++ b':' ∷ pass)) (index_byte-some b':' user pass)

  pub All-HasColon : (xs : List Bytes) → All (IsCredential codec) xs → All (HasColon codec) xs
  All-HasColon [] h = tt
  All-HasColon (x ∷ xs) h = (credential-HasColon x h.0, All-HasColon xs h.1)

is_configured-last :
    (codec : Codec) (x : Bytes) (xs : List Bytes) → is_configured codec x (xs ++ x ∷ []) ≡ true
is_configured-last codec x [] = rw (equal_refl x) refl
is_configured-last codec x (y ∷ xs) = elim (Bool-cases (equal y x)) [
  | inl e ↦ rw e refl
  | inr e ↦ rw e (is_configured-last codec x xs)
]

is_configured-same :
    (codec : Codec) (x sent : Bytes) (xs : List Bytes)
    → is_configured codec x (sent ∷ []) ≡ true
    → is_configured codec x (xs ++ sent ∷ []) ≡ true
is_configured-same codec x sent xs k = elim (Bool-cases (equal sent x)) [
  | inl e ↦
      subst (λ y. is_configured codec y (xs ++ sent ∷ []) ≡ true) ((equal_iff sent x).0 e)
        (is_configured-last codec sent xs)
  | inr e ↦ absurd (cc (rw e at k))
]

module _ (s : Setting) where
  turn : Directive → Configured → Configured
  turn d (fails e) = fails e
  turn d (configured c) = set_directive s c d

  directives-fails : (e : ConfigError) (ds : List Directive) → directives s (fails e) ds ≡ fails e
  unfolding directives
  directives-fails e [] = refl
  directives-fails e (d ∷ ds) = refl

  directives-append :
      (out : Configured) (before after : List Directive) (d : Directive)
      → directives s out (before ++ d ∷ after)
        ≡ directives s (turn d (directives s out before)) after
  unfolding directives turn
  directives-append (fails e) [] after d = sym (directives-fails e after)
  directives-append (configured c) [] after d = refl
  directives-append (fails e) (b ∷ before) after d = sym (directives-fails e after)
  directives-append (configured c) (b ∷ before) after d =
      directives-append (set_directive s c b) before after d

  module _ (block : Option (List (Bytes × List Bytes))) (after : List Directive)
      (user pass : Bytes) where
    abbrev line : Directive
    line = record { name = codes "basic_auth"; args = user ∷ pass ∷ []; block = block }

    abbrev sent : Bytes
    sent = s.codec.encode (user ++ b':' ∷ pass)

    abbrev added : Config → Config
    added c = record c { auth_credentials = some (or_empty c.auth_credentials ++ sent ∷ []) }

    -- The line is refused or adds its credentials.
    basic_auth-cases :
        (c : Config)
        → ((x : ConfigError) × (basic_auth s.codec c (user ∷ pass ∷ []) ≡ fails x))
          ⊎ ((is_nil user ≡ false)
              × (basic_auth s.codec c (user ∷ pass ∷ []) ≡ configured (added c)))
    unfolding basic_auth encode_auth_credentials
    basic_auth-cases c = elim (Bool-cases (is_nil user)) [
      | inl n ↦ rw n (inl (empty_username, refl))
      | inr n ↦ elim (Bool-cases (has_byte b':' user)) [
        | inl m ↦ rw (n, m) (inl (colon_in_username, refl))
        | inr m ↦ rw (n, m) (inr (refl, refl))
      ]
    ]

    added-Grown :
        (c : Config)
        → IsChecked s.codec c
        → basic_auth s.codec c (user ∷ pass ∷ []) ≡ configured (added c)
        → Grown s.codec (sent ∷ []) (added c)
    added-Grown c h f = (
      (subst (λ out. Checks s.codec [] out) f
          (basic_auth-Checks s.codec [] c (user ∷ pass ∷ []) (h, λ x k. absurd (cc)))).0,
      λ x k. is_configured-same s.codec x sent (or_empty c.auth_credentials) k,
    )

    basic_auth-added :
        (c end : Config)
        → IsChecked s.codec c
        → directives s (basic_auth s.codec c (user ∷ pass ∷ [])) after ≡ configured end
        → (is_nil user ≡ false)
          × (is_configured s.codec sent (or_empty end.auth_credentials) ≡ true)
    basic_auth-added c end h e = elim (basic_auth-cases c) [
      | inl (x, f) ↦ absurd (cc (e, f, directives-fails x after))
      | inr (n, f) ↦ (
        n,
        (subst (λ out. Checks s.codec (sent ∷ []) out)
              (ap (λ out. directives s out after) (sym f) ∙ e)
              (directives-Good s (sent ∷ []) (configured (added c)) after (added-Grown c h f))).1
            sent (rw (equal_refl sent) refl),
      )
    ]

    past_block :
        (out : Configured) (end : Config)
        → directives s (behind k_basic_auth block out) after ≡ configured end
        → directives s out after ≡ configured end
    past_block out end e = elim (behind_cases k_basic_auth block out) [
      | inl same ↦ ap (λ o. directives s o after) (sym same) ∙ e
      | inr bad ↦
          absurd (cc (sym (ap (λ o. directives s o after) bad) ∙ e, directives-fails arg_err after))
    ]

    line-added :
        (out : Configured) (end : Config)
        → Checks s.codec [] out
        → directives s (turn line out) after ≡ configured end
        → (is_nil user ≡ false)
          × (is_configured s.codec sent (or_empty end.auth_credentials) ≡ true)
    unfolding turn set_directive of_kind kind equal
    line-added (fails x) end h e = absurd (cc (directives-fails x after))
    line-added (configured c) end h e =
        basic_auth-added c end h.0 (past_block (basic_auth s.codec c (user ∷ pass ∷ [])) end e)

    -- One line of `basic_auth` anywhere in the block.
    pub unmarshal-added :
        (before : List Directive) (end : Config)
        → unmarshal_caddyfile s [] (before ++ line ∷ after) ≡ configured end
        → (is_nil user ≡ false)
          × (is_configured s.codec sent (or_empty end.auth_credentials) ≡ true)
    unfolding unmarshal_caddyfile
    unmarshal-added before end e =
        line-added (directives s (configured zero_config) before) end (unmarshal-Good s [] before)
          (sym (directives-append (configured zero_config) before after line) ∙ e)
