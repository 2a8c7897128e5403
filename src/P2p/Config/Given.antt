-- ===== src/P2p/Config/Given.antt =====
-- What the command line of src/p2pd_config.c sets.
use openwfd.Common.{
  ℕ, ◌+◌, ◌≡◌, refl, sym, ap, ◌∙◌, Bool, true, false, Option, none, some, List, [], ◌∷◌, arith,
  if◌then◌else◌,
}
use openwfd.Common.Memory.{Bytes, Status, ok, fail}
use mathlib.Core.Option.{some-injective}
use openwfd.P2p.Config.{
  Config, Opt, opt_help, opt_verbose, opt_silent, opt_debug, opt_interface, opt_wpa_binary,
  opt_wpa_ctrldir, Got, got, missing_argument, unknown_option, Parsed, parsed, with_string,
  parse_opts, or_default, default_ctrldir, set_ctrldir, set_binary, need_interface, check_config,
  behind_opts, parse_argv,
}

-- Whether an option is given, and the argument of the last one that is.
abbrev pub any_of : (Opt → Bool) → List Got → Bool → Bool
any_of is [] b = b
any_of is (got o arg ∷ gs) b = any_of is gs (if is o then true else b)
any_of is (missing_argument ∷ gs) b = any_of is gs b
any_of is (unknown_option ∷ gs) b = any_of is gs b

abbrev pub last_of : (Opt → Bool) → List Got → Option Bytes → Option Bytes
last_of is [] d = d
last_of is (got o arg ∷ gs) d = last_of is gs (if is o then some arg else d)
last_of is (missing_argument ∷ gs) d = last_of is gs d
last_of is (unknown_option ∷ gs) d = last_of is gs d

abbrev pub is_help : Opt → Bool
is_help opt_help = true
is_help _ = false

abbrev pub is_verbose : Opt → Bool
is_verbose opt_verbose = true
is_verbose _ = false

abbrev pub is_silent : Opt → Bool
is_silent opt_silent = true
is_silent _ = false

abbrev pub is_debug : Opt → Bool
is_debug opt_debug = true
is_debug _ = false

abbrev pub is_interface : Opt → Bool
is_interface opt_interface = true
is_interface _ = false

abbrev pub is_binary : Opt → Bool
is_binary opt_wpa_binary = true
is_binary _ = false

abbrev pub is_ctrldir : Opt → Bool
is_ctrldir opt_wpa_ctrldir = true
is_ctrldir _ = false

-- The configuration that the options make of another one.
abbrev pub settings : List Got → Config → Config
settings gs c = record {
  verbose = any_of is_verbose gs c.verbose;
  silent = any_of is_silent gs c.silent;
  debug = any_of is_debug gs c.debug;
  interface = last_of is_interface gs c.interface;
  wpa_binary = last_of is_binary gs c.wpa_binary;
  wpa_ctrldir = last_of is_ctrldir gs c.wpa_ctrldir;
}

no_memory :
    (b : Bool) (c : Config) (help : Bool) (p : Parsed)
    → (with_string b c help p).status ≡ ok
    → with_string b c help p ≡ p
no_memory true c help p h = refl
no_memory false c help p h = absurd (ground (arith, h))

parse_opts-settings :
    (dup : ℕ → Bool) (c : Config) (help : Bool) (gs : List Got)
    → (parse_opts dup c help gs).status ≡ ok
    → parse_opts dup c help gs ≡ parsed ok (settings gs c) (any_of is_help gs help)
unfolding parse_opts
parse_opts-settings dup c help [] h = refl
parse_opts-settings dup c help (missing_argument ∷ gs) h = absurd (ground (arith, h))
parse_opts-settings dup c help (unknown_option ∷ gs) h = absurd (ground (arith, h))
parse_opts-settings dup c help (got opt_help arg ∷ gs) h = parse_opts-settings dup c true gs h
parse_opts-settings dup c help (got opt_verbose arg ∷ gs) h =
    parse_opts-settings dup (record c { verbose = true }) help gs h
parse_opts-settings dup c help (got opt_silent arg ∷ gs) h =
    parse_opts-settings dup (record c { silent = true }) help gs h
parse_opts-settings dup c help (got opt_debug arg ∷ gs) h =
    parse_opts-settings dup (record c { debug = true }) help gs h
parse_opts-settings dup c help (got opt_interface arg ∷ gs) h =
    let d = record c { interface = some arg } in
    let e = no_memory (dup 0) c help (parse_opts (λ i. dup (i + 1)) d help gs) h in
    e ∙ parse_opts-settings (λ i. dup (i + 1)) d help gs (sym (ap (λ p. p.status) e) ∙ h)
parse_opts-settings dup c help (got opt_wpa_binary arg ∷ gs) h =
    let d = record c { wpa_binary = some arg } in
    let e = no_memory (dup 0) c help (parse_opts (λ i. dup (i + 1)) d help gs) h in
    e ∙ parse_opts-settings (λ i. dup (i + 1)) d help gs (sym (ap (λ p. p.status) e) ∙ h)
parse_opts-settings dup c help (got opt_wpa_ctrldir arg ∷ gs) h =
    let d = record c { wpa_ctrldir = some arg } in
    let e = no_memory (dup 0) c help (parse_opts (λ i. dup (i + 1)) d help gs) h in
    e ∙ parse_opts-settings (λ i. dup (i + 1)) d help gs (sym (ap (λ p. p.status) e) ∙ h)

-- A string or its default.
abbrev pub given_or : Bytes → Option Bytes → Bytes
given_or d none = d
given_or d (some s) = s

or_default-some :
    (dup : Bool) (d s : Bytes) (o : Option Bytes) → or_default dup d o ≡ some s → given_or d o ≡ s
or_default-some dup d s (some t) h = some-injective _ _ h
or_default-some true d s none h = some-injective _ _ h
or_default-some false d s none h = absurd (ground (arith, h))

-- What an accepted command line makes of a configuration: `c` is behind the options.
abbrev pub Accepted : Bytes → Config → Config → Type 0
Accepted binary c d =
    ((i : Bytes) × (c.interface ≡ some i))
    × (d ≡ record c {
      wpa_binary = some (given_or binary c.wpa_binary);
      wpa_ctrldir = some (given_or default_ctrldir c.wpa_ctrldir);
    })

ctrldir_ok :
    (o : Option Bytes) (c d : Config)
    → set_ctrldir o c ≡ (ok, d)
    → (s : Bytes) × ((o ≡ some s) × (d ≡ record c { wpa_ctrldir = some s }))
ctrldir_ok none c d h = let e = ap (λ x. x.0) h in absurd (ground (arith, e))
ctrldir_ok (some s) c d h = (s, (refl, sym (ap (λ x. x.1) h)))

binary_ok :
    (dup : Bool) (o : Option Bytes) (c d : Config)
    → set_binary dup o c ≡ (ok, d)
    → (s : Bytes) × ((o ≡ some s)
        × (d ≡ record c {
          wpa_binary = some s;
          wpa_ctrldir = some (given_or default_ctrldir c.wpa_ctrldir);
        }))
binary_ok dup none c d h = let e = ap (λ x. x.0) h in absurd (ground (arith, e))
binary_ok dup (some s) c d h =
    let (t, (e, f)) =
      ctrldir_ok (or_default dup default_ctrldir c.wpa_ctrldir) (record c { wpa_binary = some s }) d
        h in
    (
      s,
      (
        refl,
        f
            ∙ ap (λ x. record c { wpa_binary = some s; wpa_ctrldir = some x })
                (sym (or_default-some dup default_ctrldir t c.wpa_ctrldir e)),
      ),
    )

interface_ok :
    (o : Option Bytes) (binary : Bytes) (dup : ℕ → Bool) (c d : Config)
    → c.interface ≡ o
    → need_interface o c (set_binary (dup 1) (or_default (dup 0) binary c.wpa_binary) c) ≡ (ok, d)
    → Accepted binary c d
interface_ok none binary dup c d p h = let e = ap (λ x. x.0) h in absurd (ground (arith, e))
interface_ok (some i) binary dup c d p h =
    let (s, (e, f)) = binary_ok (dup 1) (or_default (dup 0) binary c.wpa_binary) c d h in
    (
      (i, p),
      f
          ∙ ap
              (λ x. record c {
                wpa_binary = some x;
                wpa_ctrldir = some (given_or default_ctrldir c.wpa_ctrldir);
              })
              (sym (or_default-some (dup 0) binary s c.wpa_binary e)),
    )

config_ok :
    (help left : Bool) (dup : ℕ → Bool) (binary : Bytes) (c d : Config)
    → check_config help left dup binary c ≡ (ok, d)
    → ((help ≡ false) × (left ≡ false)) × Accepted binary c d
config_ok true left dup binary c d h = let e = ap (λ x. x.0) h in absurd (ground (arith, e))
config_ok false true dup binary c d h = let e = ap (λ x. x.0) h in absurd (ground (arith, e))
config_ok false false dup binary c d h =
    ((refl, refl), interface_ok c.interface binary dup c d refl h)

opts_ok :
    (s : Status) (p : Parsed) (left : Bool) (dup : ℕ → Bool) (binary : Bytes) (d : Config)
    → behind_opts s p left dup binary ≡ (ok, d)
    → (s ≡ ok) × (check_config p.help left dup binary p.config ≡ (ok, d))
opts_ok (fail e) p left dup binary d h = let g = ap (λ x. x.0) h in absurd (ground (arith, g))
opts_ok ok p left dup binary d h = (refl, h)

-- Whatever the allocator answers: where `owfd_p2pd_parse_argv` returns 0, no option asks for help, no argument is
-- left, an interface is given or was set before, and the configuration has each flag if it is among the options or was
-- set before, the argument of the last option for each string, or the one from before, and the defaults for the two paths.
pub parse_argv-Accepted :
    (binary : Bytes) (dup dup' : ℕ → Bool) (gs : List Got) (left : Bool) (c d : Config)
    → parse_argv binary dup dup' gs left c ≡ (ok, d)
    → ((any_of is_help gs false ≡ false) × (left ≡ false)) × Accepted binary (settings gs c) d
unfolding parse_argv
parse_argv-Accepted binary dup dup' gs left c d h =
    let p = parse_opts dup c false gs in
    let (s, g) = opts_ok p.status p left dup' binary d h in
    let e = parse_opts-settings dup c false gs s in
    config_ok (any_of is_help gs false) left dup' binary (settings gs c) d
      (sym (ap (λ q. check_config q.help left dup' binary q.config) e) ∙ g)
