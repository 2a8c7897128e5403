-- ===== src/Dhcp/Config/Modes.antt =====
-- What the loop over the options of src/dhcp_config.c keeps, and how a chain of its checks ends well.
use openwfd.Common.{
  ℕ, ◌+◌, ◌≡◌, refl, sym, ap, ◌≢◌, ◌⊎◌, inl, inr, Bool, true, false, ◌&&◌, ◌||◌, Option, none, some,
  List, [], ◌∷◌, if◌then◌else◌,
}
use openwfd.Common.Memory.{Bytes, Status, ok, fail, Errno, enomem}
use openwfd.Common.Strings.{none-some}
use openwfd.Dhcp.Config.{
  Config, Opt, Got, got, missing_argument, unknown_option, set_string, apply_opt, is_help,
  parse_opts, and_next, opt_help, opt_verbose, opt_silent, opt_debug, opt_client, opt_server,
  opt_ipv4, opt_ipv6, opt_interface, opt_ip_binary, opt_local, opt_gateway, opt_dns, opt_subnet,
  opt_ip_from, opt_ip_to,
}

-- At most one mode and at most one version of IP.
pub record Modes (c : Config) : Type 0 where
  pub mode : (c.client && c.server) ≡ false
  pub version : (c.ipv4 && c.ipv6) ≡ false

pub fail-ok : (x : Errno) → fail x ≢ ok
fail-ok x p = cc

pub Status-cases : (s : Status) → (s ≡ ok) ⊎ ((e : Errno) × (s ≡ fail e))
Status-cases ok = inl refl
Status-cases (fail e) = inr (e, refl)

set_string-Modes : (dup : Bool) (c c' : Config) → Modes c → Modes c' → Modes (set_string dup c c').1
set_string-Modes true c c' m m' = m'
set_string-Modes false c c' m m' = m

apply_opt-Modes :
    (dup : Bool) (o : Opt) (arg : Bytes) (c : Config) → Modes c → Modes (apply_opt dup o arg c).1
unfolding apply_opt
apply_opt-Modes dup opt_help arg c m = m
apply_opt-Modes dup opt_verbose arg c m = record { mode = m.mode; version = m.version }
apply_opt-Modes dup opt_silent arg c m = record { mode = m.mode; version = m.version }
apply_opt-Modes dup opt_debug arg c m = record { mode = m.mode; version = m.version }
apply_opt-Modes dup opt_client arg c m = record { mode = refl; version = m.version }
apply_opt-Modes dup opt_server arg c m = record { mode = refl; version = m.version }
apply_opt-Modes dup opt_ipv4 arg c m = record { mode = m.mode; version = refl }
apply_opt-Modes dup opt_ipv6 arg c m = record { mode = m.mode; version = refl }
apply_opt-Modes dup opt_interface arg c m =
    set_string-Modes dup c (record c { interface = some arg }) m
      (record { mode = m.mode; version = m.version })
apply_opt-Modes dup opt_ip_binary arg c m =
    set_string-Modes dup c (record c { ip_binary = some arg }) m
      (record { mode = m.mode; version = m.version })
apply_opt-Modes dup opt_local arg c m =
    set_string-Modes dup c (record c { local = some arg }) m
      (record { mode = m.mode; version = m.version })
apply_opt-Modes dup opt_gateway arg c m =
    set_string-Modes dup c (record c { gateway = some arg }) m
      (record { mode = m.mode; version = m.version })
apply_opt-Modes dup opt_dns arg c m =
    set_string-Modes dup c (record c { dns = some arg }) m
      (record { mode = m.mode; version = m.version })
apply_opt-Modes dup opt_subnet arg c m =
    set_string-Modes dup c (record c { subnet = some arg }) m
      (record { mode = m.mode; version = m.version })
apply_opt-Modes dup opt_ip_from arg c m =
    set_string-Modes dup c (record c { ip_from = some arg }) m
      (record { mode = m.mode; version = m.version })
apply_opt-Modes dup opt_ip_to arg c m =
    set_string-Modes dup c (record c { ip_to = some arg }) m
      (record { mode = m.mode; version = m.version })

pub parse_opts-Modes :
    (dup : ℕ → Bool) (c : Config) (help : Bool) (gots : List Got)
    → Modes c
    → Modes (parse_opts dup c help gots).1
unfolding parse_opts
parse_opts-Modes dup c help [] m = m
parse_opts-Modes dup c help (missing_argument ∷ gots) m = m
parse_opts-Modes dup c help (unknown_option ∷ gots) m = m
parse_opts-Modes dup c help (got o arg ∷ gots) m =
    let next = apply_opt (dup 0) o arg c in
    let m' = apply_opt-Modes (dup 0) o arg c m in
    elim (Status-cases next.0) [
      | inl e ↦
          rw (parse_opts, e)
            (parse_opts-Modes (λ i. dup (i + 1)) next.1 (help || is_help o) gots m')
      | inr (x, e) ↦ rw (parse_opts, e) m'
    ]

-- A chain of two steps that ends well.
pub record Both (r : Status × Config) (k : Config → Status × Config) (d : Config) : Type 0 where
  pub mid : Config
  pub first : r ≡ (ok, mid)
  pub second : k mid ≡ (ok, d)

pub both :
    (r : Status × Config) (k : Config → Status × Config) (d : Config)
    → and_next r k ≡ (ok, d)
    → Both r k d
both (ok, c) k d h = record { mid = c; first = refl; second = h }
both (fail e, c) k d h = absurd (fail-ok e (ap (λ p. p.0) h))

-- Behind a test that returns an error.
pub guard_ok :
    (b : Bool) (x : Errno) (c : Config) (r : Status × Config) (d : Config)
    → (if b then (fail x, c) else r) ≡ (ok, d)
    → b ≡ false × r ≡ (ok, d)
guard_ok true x c r d h = absurd (fail-ok x (ap (λ p. p.0) h))
guard_ok false x c r d h = (refl, h)

pub interface_ok :
    (o : Option Bytes) (x : Errno) (c : Config) (r : Status × Config) (d : Config)
    → (elim o as (λ _. Status × Config) [ none ↦ (fail x, c) | some _ ↦ r ]) ≡ (ok, d)
    → o ≢ none × r ≡ (ok, d)
interface_ok none x c r d h = absurd (fail-ok x (ap (λ p. p.0) h))
interface_ok (some b) x c r d h = ((λ q. none-some (sym q)), h)

pub set_string_ok : (dup : Bool) (c c' d : Config) → set_string dup c c' ≡ (ok, d) → d ≡ c'
set_string_ok true c c' d h = sym (ap (λ p. p.1) h)
set_string_ok false c c' d h = absurd (fail-ok enomem (ap (λ p. p.0) h))
