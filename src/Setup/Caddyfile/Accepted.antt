-- ===== src/Setup/Caddyfile/Accepted.antt =====
-- `basic_auth` of caddyfile.go, `checkCredentials` of forwardproxy.go and the client of
-- httpclient/httpclient.go agree on credentials.
use forwardproxy.Base.{
  Option, Bool, true, false, List, [], ◌∷◌, ◌++◌, none, some, Bytes, codes, equal, ◌≡◌, refl, ap,
  ◌∙◌, if◌then◌else◌, is_nil,
}
use forwardproxy.Serve.Auth.Accepts.{is_accepted, check_credentials-accepts_iff}
use forwardproxy.Serve.Auth.{Codec, check_credentials}
use forwardproxy.Serve.Headers.{
  Header, all_token_bytes, canonical_key, capitalise, get, values, set_value,
}
use forwardproxy.Setup.Caddyfile.Checked.{unmarshal_caddyfile-IsChecked}
use forwardproxy.Setup.Caddyfile.{
  Config, Directive, Setting, configured, or_empty, unmarshal_caddyfile,
}
use forwardproxy.Std.Strings.{has_byte, split, to_lower}
use forwardproxy.Upstream.Client.{
  Dialer, NewDialer, ProxyUrl, new, new_http_connect_dialer, dialer_to, put_all, request_header,
  user_header,
}
use forwardproxy.Setup.Caddyfile.Credentials.{
  All-HasColon, IsBase64, split-no_byte, unmarshal-added,
}

-- The header that the client sends for a user.
user_header-fields :
    (codec : Codec) (user pass : Bytes)
    → is_nil user ≡ false
    → get
        (codes "Proxy-Authorization")
        (request_header (user_header codec (some (user, pass))) none)
      ≡ codes "Basic " ++ codec.encode (user ++ b':' ∷ pass)
unfolding user_header request_header put_all get values canonical_key all_token_bytes capitalise
    has_byte equal set_value forwardproxy.Serve.Headers.without
user_header-fields codec [] pass n = absurd (cc)
user_header-fields codec (c ∷ name) pass n = refl

basic_fields :
    (x : Bytes)
    → has_byte b' ' x ≡ false
    → split b' ' (codes "Basic " ++ x) ≡ codes "Basic" ∷ x ∷ []
unfolding split
basic_fields x h = rw (split-no_byte b' ' x h) refl

dialer_to-header :
    (codec : Codec) (port : Bytes) (u : ProxyUrl) (d : Dialer)
    → dialer_to codec port u ≡ new d
    → d.default_header ≡ user_header codec u.user
unfolding dialer_to
dialer_to-header codec port u d e = cc

-- A test decides which of two results it is.
either_new :
    {P : Type 0} (b : Bool) (x y : NewDialer) (d : Dialer)
    → (x ≡ new d → P)
    → (y ≡ new d → P)
    → (if b then x else y) ≡ new d
    → P
either_new true x y d f g e = f e
either_new false x y d f g e = g e

new-header :
    (codec : Codec) (u : ProxyUrl) (d : Dialer)
    → new_http_connect_dialer codec u ≡ new d
    → d.default_header ≡ user_header codec u.user
unfolding new_http_connect_dialer
new-header codec u d e =
    either_new (is_nil u.host) _ _ d (λ r. absurd (cc))
      (either_new (equal u.scheme (codes "http")) _ _ d (dialer_to-header codec (codes "80") u d) (
        either_new (equal u.scheme (codes "https")) _ _ d (dialer_to-header codec (codes "443") u d)
          (either_new (is_nil u.scheme) _ _ d (λ r. absurd (cc)) λ r. absurd (cc))))
      e

module _ (s : Setting) (laws : IsBase64 s.codec) where
  -- A client that is made with the name and the password of a `basic_auth` line, which may stand
  -- anywhere in a Caddyfile that is read without an error, is accepted: the header of its CONNECT
  -- request passes `checkCredentials` with the credentials that the Caddyfile configures. The
  -- encoding is base64: the decoder undoes it and it has no space.
  pub basic_auth-accepts_client :
      (before after : List Directive) (block : Option (List (Bytes × List Bytes)))
      (user pass : Bytes) (c : Config) (u : ProxyUrl) (d : Dialer)
      → unmarshal_caddyfile s [] (
          before
          ++ record { name = codes "basic_auth"; args = user ∷ pass ∷ []; block = block } ∷ after)
        ≡ configured c
      → u.user ≡ some (user, pass)
      → new_http_connect_dialer s.codec u ≡ new d
      → is_accepted s.codec (
          check_credentials s.codec
            (or_empty c.auth_credentials)
            (request_header d.default_header none))
        ≡ true
  unfolding to_lower
  basic_auth-accepts_client before after block user pass c u d e named made =
      let added = unmarshal-added s block after user pass before c e in
      let colons =
        All-HasColon s.codec laws (or_empty c.auth_credentials)
          (unmarshal_caddyfile-IsChecked s [] _ c e).credentials in
      let sent = s.codec.encode (user ++ b':' ∷ pass) in
      (check_credentials-accepts_iff s.codec (or_empty c.auth_credentials)
          (request_header d.default_header none) colons).1
        (
          codes "Basic",
          sent,
          ap (λ h. split b' ' (get (codes "Proxy-Authorization") (request_header h none)))
                (new-header s.codec u d made ∙ ap (λ o. user_header s.codec o) named)
              ∙ ap (λ v. split b' ' v) (user_header-fields s.codec user pass added.0)
              ∙ basic_fields sent (laws.no_space (user ++ b':' ∷ pass)),
          refl,
          added.1,
        )
