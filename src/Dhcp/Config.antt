-- ===== src/Dhcp/Config.antt =====
-- The command line of the DHCP daemon, src/dhcp_config.c and src/dhcp.h. The answers of
-- `getopt_long` are a list, and `dup i` tells whether the i-th `strdup` has memory. `inet_pton` and
-- `inet_ntop` are parameters.
pub mod Modes
pub mod Server
pub mod Valid
mod Tests
use openwfd.Common.{
  ℕ, zero, suc, ◌+◌, ◌-◌, ◌*◌, ◌/◌, ◌%◌, ◌^◌, ◌≤◌, ◌<◌, min, ◌≡◌, refl, sym, ap, ◌∙◌, ◌≢◌, ◌↔◌, ◌⊎◌,
  inl, inr, Bool, true, false, not, ◌&&◌, ◌||◌, Option, none, some, List, [], ◌∷◌, ◌++◌, append-nil,
  append_assoc, arith, ltb, leb, ◌==◌, if◌then◌else◌, Bool-cases, Option-cases, ltb→lt, ltb→ge,
  lt→ltb, ge→ltb, leb→le, leb→gt, le→leb, lt→leb, ==_iff, ==_refl,
}
use openwfd.Common.{length, drop, take}
use openwfd.Common.Memory.{Bytes, Status, ok, fail, enomem, einval, eagain}
use openwfd.Common.Text.{codes, starts_with}

-- `struct owfd_dhcp_config`
pub record Config : Type 0 where
  pub verbose : Bool
  pub silent : Bool
  pub debug : Bool
  pub client : Bool
  pub server : Bool
  pub ipv4 : Bool
  pub ipv6 : Bool
  pub interface : Option Bytes
  pub ip_binary : Option Bytes
  pub local : Option Bytes
  pub gateway : Option Bytes
  pub dns : Option Bytes
  pub subnet : Option Bytes
  pub ip_from : Option Bytes
  pub ip_to : Option Bytes

-- `owfd_dhcp_init_config`
abbrev pub init_config : Config
init_config = record {
  verbose = false;
  silent = false;
  debug = false;
  client = false;
  server = false;
  ipv4 = false;
  ipv6 = false;
  interface = none;
  ip_binary = none;
  local = none;
  gateway = none;
  dns = none;
  subnet = none;
  ip_from = none;
  ip_to = none;
}

-- The options, short and long.
pub data Opt : Type 0 where
  opt_help opt_verbose opt_silent opt_debug opt_client opt_server opt_ipv4 opt_ipv6 opt_interface
        opt_ip_binary opt_local opt_gateway opt_dns opt_subnet opt_ip_from opt_ip_to :
      Opt

-- A result of `getopt_long`: an option with `optarg`, ':' or '?'.
pub data Got : Type 0 where
  got : Opt → Bytes → Got
  missing_argument unknown_option : Got

-- `t = strdup(optarg)` and the store behind it.
abbrev pub set_string : Bool → Config → Config → Status × Config
set_string dup conf conf' = if dup then (ok, conf') else (fail enomem, conf)

-- The `switch` of `owfd_dhcp_parse_argv`, but for the local variable `help`.
unfoldable pub apply_opt : Bool → Opt → Bytes → Config → Status × Config
apply_opt dup opt_help arg conf = (ok, conf)
apply_opt dup opt_verbose arg conf = (ok, record conf { verbose = true })
apply_opt dup opt_silent arg conf = (ok, record conf { silent = true })
apply_opt dup opt_debug arg conf = (ok, record conf { debug = true })
apply_opt dup opt_client arg conf = (ok, record conf { server = false; client = true })
apply_opt dup opt_server arg conf = (ok, record conf { client = false; server = true })
apply_opt dup opt_ipv4 arg conf = (ok, record conf { ipv6 = false; ipv4 = true })
apply_opt dup opt_ipv6 arg conf = (ok, record conf { ipv4 = false; ipv6 = true })
apply_opt dup opt_interface arg conf = set_string dup conf (record conf { interface = some arg })
apply_opt dup opt_ip_binary arg conf = set_string dup conf (record conf { ip_binary = some arg })
apply_opt dup opt_local arg conf = set_string dup conf (record conf { local = some arg })
apply_opt dup opt_gateway arg conf = set_string dup conf (record conf { gateway = some arg })
apply_opt dup opt_dns arg conf = set_string dup conf (record conf { dns = some arg })
apply_opt dup opt_subnet arg conf = set_string dup conf (record conf { subnet = some arg })
apply_opt dup opt_ip_from arg conf = set_string dup conf (record conf { ip_from = some arg })
apply_opt dup opt_ip_to arg conf = set_string dup conf (record conf { ip_to = some arg })

abbrev pub is_help : Opt → Bool
is_help opt_help = true
is_help _ = false

-- The loop over the options.
unfoldable pub parse_opts : (ℕ → Bool) → Config → Bool → List Got → Status × Config × Bool
unfolding apply_opt
parse_opts dup conf help [] = (ok, conf, help)
parse_opts dup conf help (missing_argument ∷ gots) = (fail einval, conf, help)
parse_opts dup conf help (unknown_option ∷ gots) = (fail einval, conf, help)
parse_opts dup conf help (got o arg ∷ gots) =
    let (s, c) = apply_opt (dup 0) o arg conf in
    elim s [
      | fail e ↦ (fail e, c, help)
      | ok ↦ parse_opts (λ i. dup (i + 1)) c (help || is_help o) gots
    ]

-- Go on if there was no error.
abbrev pub and_next : Status × Config → (Config → Status × Config) → Status × Config
and_next (fail e, conf) k = (fail e, conf)
and_next (ok, conf) k = k conf

-- `!memcmp(addr.s6_addr, prefix, sizeof(prefix))`
unfoldable pub is_mapped : Bytes → Bool
unfolding starts_with
is_mapped addr = starts_with (0 ∷ 0 ∷ 0 ∷ 0 ∷ 0 ∷ 0 ∷ 0 ∷ 0 ∷ 0 ∷ 0 ∷ 255 ∷ 255 ∷ []) addr

-- `BUILD_BINDIR_IP "/ip"`, `inet_pton` on IPv6 addresses and `inet_ntop` on IPv4 addresses.
module _ (build_ip : Bytes) (inet_pton : Bytes → Option Bytes) (inet_ntop : Bytes → Bytes) where
  -- `verify_address` behind `inet_pton`.
  abbrev pub verify_parsed : Bool → Option Bytes → Status
  verify_parsed ipv4 none = fail einval
  verify_parsed ipv4 (some addr) = if ipv4 && not (is_mapped addr) then fail einval else ok

  -- `verify_address`
  unfoldable pub verify_address : Bool → Option Bytes → Status
  verify_address ipv4 none = fail einval
  verify_address ipv4 (some arg) = verify_parsed ipv4 (inet_pton arg)

  -- The bytes 12 to 15 of the address; all zeros if `inet_pton` fails.
  abbrev pub last_four : Option Bytes → Bytes
  last_four none = 0 ∷ 0 ∷ 0 ∷ 0 ∷ []
  last_four (some addr) = drop 12 addr

  -- `make_ipv4`
  unfoldable pub make_ipv4 : Bool → Option Bytes → Status × Option Bytes
  make_ipv4 dup none = (ok, none)
  make_ipv4 dup (some arg) =
      if dup then (ok, some (inet_ntop (last_four (inet_pton arg)))) else (fail enomem, some arg)

  -- `verify_address`, `make_ipv4` on IPv4, and the test of `r`.
  unfoldable pub convert : Bool → Bool → Option Bytes → Status × Option Bytes
  unfolding verify_address make_ipv4
  convert dup ipv4 arg = elim (verify_address ipv4 arg) [
    | fail e ↦ (fail e, arg)
    | ok ↦ if ipv4 then make_ipv4 dup arg else (ok, arg)
  ]

  unfoldable pub convert_local : Bool → Config → Status × Config
  unfolding convert
  convert_local dup conf =
      let (s, v) = convert dup conf.ipv4 conf.local in (s, record conf { local = v })

  unfoldable pub convert_gateway : Bool → Config → Status × Config
  unfolding convert
  convert_gateway dup conf =
      let (s, v) = convert dup conf.ipv4 conf.gateway in (s, record conf { gateway = v })

  unfoldable pub convert_dns : Bool → Config → Status × Config
  unfolding convert
  convert_dns dup conf = let (s, v) = convert dup conf.ipv4 conf.dns in (s, record conf { dns = v })

  unfoldable pub convert_subnet : Bool → Config → Status × Config
  unfolding convert
  convert_subnet dup conf =
      let (s, v) = convert dup conf.ipv4 conf.subnet in (s, record conf { subnet = v })

  unfoldable pub convert_ip_from : Bool → Config → Status × Config
  unfolding convert
  convert_ip_from dup conf =
      let (s, v) = convert dup conf.ipv4 conf.ip_from in (s, record conf { ip_from = v })

  unfoldable pub convert_ip_to : Bool → Config → Status × Config
  unfolding convert
  convert_ip_to dup conf =
      let (s, v) = convert dup conf.ipv4 conf.ip_to in (s, record conf { ip_to = v })

  -- The block for servers.
  unfoldable pub check_server : (ℕ → Bool) → Config → Status × Config
  unfolding convert_local convert_gateway convert_dns convert_subnet convert_ip_from convert_ip_to
  check_server dup conf = and_next (convert_local (dup 0) conf) (λ c.
      and_next (convert_gateway (dup 1) c) (λ d. and_next (convert_dns (dup 2) d) (λ e.
        and_next (convert_subnet (dup 3) e)
          (λ f. and_next (convert_ip_from (dup 4) f) (λ g. convert_ip_to (dup 5) g)))))

  -- The default of `ip_binary`.
  unfoldable pub default_ip : Bool → Config → Status × Config
  default_ip dup conf = elim conf.ip_binary [
    | none ↦ set_string dup conf (record conf { ip_binary = some build_ip })
    | some _ ↦ (ok, conf)
  ]

  -- The checks behind the loop; `rest` is `optind < argc`.
  unfoldable pub check_config : (ℕ → Bool) → Bool → Bool → Config → Status × Config
  unfolding default_ip check_server
  check_config dup help rest conf =
      if help
      then (fail eagain, conf)
      else if rest
      then (fail einval, conf)
      else if not conf.client && not conf.server
      then (fail einval, conf)
      else if not conf.ipv4 && not conf.ipv6
      then (fail einval, conf)
      else if conf.ipv6
      then (fail einval, conf)
      else elim conf.interface [
        | none ↦ (fail einval, conf)
        | some _ ↦
            and_next (default_ip (dup 6) conf)
              (λ c. if c.server then check_server dup c else (ok, c))
      ]

  -- `owfd_dhcp_parse_argv`; `dup` is for the loop, `dup'` for the calls behind it.
  unfoldable pub parse_argv : (ℕ → Bool) → (ℕ → Bool) → Config → List Got → Bool → Status × Config
  unfolding parse_opts check_config
  parse_argv dup dup' conf gots rest =
      let (s, c, help) = parse_opts dup conf false gots in
      elim s [ fail e ↦ (fail e, c) | ok ↦ check_config dup' help rest c ]
