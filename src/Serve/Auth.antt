-- ===== src/Serve/Auth.antt =====
-- forwardproxy.go, `checkCredentials`. The decoder of base64 and the check of UTF-8 are Go's; they
-- only shape the user name that is noted for the log.
pub mod Accepts
use forwardproxy.Base.{
  ℕ, Bool, true, false, List, [], ◌∷◌, ◌++◌, Option, none, some, Bytes, codes, equal, ◌==◌,
  if◌then◌else◌, length, take,
}
use forwardproxy.Serve.Headers.{Header, get}
use forwardproxy.Std.Strings.{index_byte, split, to_lower}

-- `base64.StdEncoding.Decode`: the bytes that it wrote, and the text of its error.
pub record Codec : Type 0 where
  pub encode : Bytes → Bytes
  pub decode : Bytes → Bytes × Option Bytes
  pub valid_utf8 : Bytes → Bool

pub data AuthError : Type 0 where
  required unsupported_type invalid_credentials : AuthError
  invalid_base64 : Bytes → AuthError

-- The noted user is `http.auth.user.id`. `panics` is the slice by -1 of credentials with no colon.
pub data Checked : Type 0 where
  accepts : Bytes → Checked
  rejects : Option Bytes → AuthError → Checked
  panics : Checked

accepted_user : Bytes → Option ℕ → Checked
accepted_user cred none = panics
accepted_user cred (some i) = accepts (take i cred)

rejected_user : Bytes → Option ℕ → Bytes
rejected_user cred none = codes "invalidformat:" ++ cred
rejected_user cred (some i) = codes "invalid:" ++ take i cred

module _ (codec : Codec) where
  rejected : Bytes × Option Bytes → Checked
  unfolding rejected_user
  rejected (cred, some e) = rejects (some (codes "invalidbase64:" ++ e)) (invalid_base64 e)
  rejected (cred, none) =
      rejects
        (some (
          if codec.valid_utf8 cred
          then rejected_user cred (index_byte b':' cred)
          else codes "invalid::"))
        invalid_credentials

  -- The loop over the configured credentials, for those that the client sent.
  unfoldable pub find_credentials : List Bytes → Bytes → Checked
  unfolding rejected accepted_user
  find_credentials [] sent = rejected (codec.decode sent)
  find_credentials (creds ∷ configured) sent =
      let rest = find_credentials configured sent in
      let cred = (codec.decode creds).0 in
      if equal creds sent then accepted_user cred (index_byte b':' cred) else rest

  check_fields : List Bytes → List Bytes → Checked
  unfolding find_credentials
  check_fields configured (kind ∷ sent ∷ []) =
      if equal (to_lower kind) (codes "basic")
      then find_credentials configured sent
      else rejects none unsupported_type
  check_fields configured _ = rejects none required

  -- `checkCredentials`
  unfoldable pub check_credentials : List Bytes → Header → Checked
  unfolding check_fields
  check_credentials configured h =
      check_fields configured (split b' ' (get (codes "Proxy-Authorization") h))
