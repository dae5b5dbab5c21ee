-- ===== src/Setup/Caddyfile/Checked.antt =====
-- caddyfile.go: what a Caddyfile that is read without an error gives.
use mathlib.Core.Path.{subst}
use forwardproxy.Base.{
  ◌⊎◌, inl, inr, Bool-cases, sym, Bool, true, false, List, [], ◌∷◌, Option, none, some, Bytes,
  codes, equal, ◌≡◌, refl, if◌then◌else◌,
}
use forwardproxy.Setup.Caddyfile.Directives.{
  Checks, Grown, IsChecked, basic_auth-Checks, flag-Checks, serve_pac-Checks, set_hosts-Checks,
  set_ports-Checks, set_probe_resistance-Checks, set_upstream-Checks, single-Checks, unchanged,
  with_idle-Checks, with_idle_per_host-Checks, with_timeout-Checks,
}
use forwardproxy.Setup.Caddyfile.{
  Config, Configured, Directive, Kind, Setting, acl_block, acl_line, add_acl, add_file, configured,
  arg_err, behind, reads_block, directives, fails, lines_of, from_file, k_acl, k_basic_auth,
  k_dial_timeout, k_disable_check, k_hide_ip, k_hide_via, k_hosts, k_max_idle, k_max_idle_per_host,
  k_other, k_ports, k_probe_resistance, k_serve_pac, k_upstream, kind, of_kind, set_directive,
  unmarshal_caddyfile, zero_config,
}
use forwardproxy.Std.Strconv.{atoi}

-- A block behind a directive leaves what the directive gives, or ends in an error.
pub behind_cases :
    (k : Kind) (block : Option (List (Bytes × List Bytes))) (out : Configured)
    → (behind k block out ≡ out) ⊎ (behind k block out ≡ fails arg_err)
unfolding behind
behind_cases k none out = inl refl
behind_cases k (some lines) (fails e) = inl refl
behind_cases k (some lines) (configured c) = elim (Bool-cases (reads_block k)) [
  | inl b ↦ rw b (inl refl)
  | inr b ↦ rw b (inr refl)
]

module _ (s : Setting) (since : List Bytes) where
  abbrev Good : Configured → Type 0
  Good out = Checks s.codec since out

  -- A test decides which of two ends it is.
  either : (b : Bool) (x y : Configured) → Good x → Good y → Good (if b then x else y)
  either true x y h k = h
  either false x y h k = k

  add_file-Good :
      (c : Config) (allow : Bool) (o : Option (List Bytes))
      → Grown s.codec since c
      → Good (add_file c allow o)
  unfolding add_file add_acl
  add_file-Good c allow none h = tt
  add_file-Good c allow (some lines) h = unchanged s.codec since c _ refl refl refl refl h

  from_file-Good :
      (c : Config) (allow : Bool) (args : List Bytes)
      → Grown s.codec since c
      → Good (from_file s c allow args)
  unfolding from_file
  from_file-Good c allow [] h = tt
  from_file-Good c allow (name ∷ []) h = add_file-Good c allow (s.read_lines name) h
  from_file-Good c allow (a ∷ b ∷ args) h = tt

  acl_line-Good :
      (c : Config) (name : Bytes) (args : List Bytes)
      → Grown s.codec since c
      → Good (acl_line s c name args)
  unfolding acl_line add_acl
  acl_line-Good c name [] h = tt
  acl_line-Good c name (a ∷ args) h =
      let line = unchanged s.codec since c _ refl refl refl refl h in
      either (equal name (codes "allow")) _ _ line (
        either (equal name (codes "allow_file")) _ _ (from_file-Good c true (a ∷ args) h) (
          either (equal name (codes "deny")) _ _ (unchanged s.codec since c _ refl refl refl refl h)
            (either (equal name (codes "deny_file")) _ _ (from_file-Good c false (a ∷ args) h) tt)))

  acl_block-Good :
      (out : Configured) (lines : List (Bytes × List Bytes))
      → Good out
      → Good (acl_block s out lines)
  unfolding acl_block
  acl_block-Good out [] h = h
  acl_block-Good (fails e) (line ∷ lines) h = tt
  acl_block-Good (configured c) ((name, args) ∷ lines) h =
      acl_block-Good (acl_line s c name args) lines (acl_line-Good c name args h)

  of_kind-Good :
      (c : Config) (k : Kind) (args : List Bytes) (block : List (Bytes × List Bytes))
      → Grown s.codec since c
      → Good (of_kind s c k args block)
  unfolding of_kind
  of_kind-Good c k_basic_auth args block h = basic_auth-Checks s.codec since c args h
  of_kind-Good c k_hosts args block h = set_hosts-Checks s.codec since c args c.hosts h
  of_kind-Good c k_ports args block h = set_ports-Checks s.codec since c args c.allowed_ports h
  of_kind-Good c k_hide_ip args block h =
      flag-Checks s.codec since _ args (unchanged s.codec since c _ refl refl refl refl h)
  of_kind-Good c k_hide_via args block h =
      flag-Checks s.codec since _ args (unchanged s.codec since c _ refl refl refl refl h)
  of_kind-Good c k_disable_check args block h =
      flag-Checks s.codec since _ args (unchanged s.codec since c _ refl refl refl refl h)
  of_kind-Good c k_probe_resistance args block h =
      set_probe_resistance-Checks s.codec since c args h
  of_kind-Good c k_serve_pac args block h = serve_pac-Checks s.codec since c args c.pac_path h
  of_kind-Good c k_dial_timeout args block h =
      single-Checks s.codec since args _
        λ a. with_timeout-Checks s.codec since c (s.parse_duration a) h
  of_kind-Good c k_max_idle args block h =
      single-Checks s.codec since args _ λ a. with_idle-Checks s.codec since c (atoi a) h
  of_kind-Good c k_max_idle_per_host args block h =
      single-Checks s.codec since args _ λ a. with_idle_per_host-Checks s.codec since c (atoi a) h
  of_kind-Good c k_upstream args block h =
      single-Checks s.codec since args _ λ a. set_upstream-Checks s.codec since c c.upstream a h
  of_kind-Good c k_acl args block h = acl_block-Good (configured c) block h
  of_kind-Good c k_other args block h = tt

  behind-Good :
      (k : Kind) (block : Option (List (Bytes × List Bytes))) (out : Configured)
      → Good out
      → Good (behind k block out)
  unfolding behind
  behind-Good k block out h = elim (behind_cases k block out) [
    | inl same ↦ subst Good (sym same) h
    | inr bad ↦ subst Good (sym bad) tt
  ]

  pub directives-Good :
      (out : Configured) (ds : List Directive) → Good out → Good (directives s out ds)
  unfolding directives set_directive
  directives-Good out [] h = h
  directives-Good (fails e) (d ∷ ds) h = tt
  directives-Good (configured c) (d ∷ ds) h = directives-Good (set_directive s c d) ds (
      behind-Good (kind d.name) d.block _
        (of_kind-Good c (kind d.name) d.args (lines_of d.block) h))

module _ (s : Setting) where
  pub unmarshal-Good :
      (args : List Bytes) (ds : List Directive) → Checks s.codec [] (unmarshal_caddyfile s args ds)
  unfolding unmarshal_caddyfile
  unmarshal-Good (a ∷ args) ds = tt
  unmarshal-Good [] ds =
      directives-Good s [] (configured zero_config) ds
        (record { ports = tt; credentials = tt; pac = refl; timeout = tt }, λ x k. absurd (cc))

  -- A configuration that a Caddyfile gives, whatever directives it has and in whatever order, has
  -- ports from 1 to 65535; credentials that are the encoding of a name that is not empty and has no
  -- colon, a colon and a password; a path of the PAC file that is empty or starts with a slash; and a
  -- timeout that is not negative.
  pub unmarshal_caddyfile-IsChecked :
      (args : List Bytes) (ds : List Directive) (c : Config)
      → unmarshal_caddyfile s args ds ≡ configured c
      → IsChecked s.codec c
  unmarshal_caddyfile-IsChecked args ds c e =
      (subst (λ out. Checks s.codec [] out) e (unmarshal-Good args ds)).0
