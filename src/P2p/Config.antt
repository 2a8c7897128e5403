-- ===== src/P2p/Config.antt =====
-- The command line of the P2P daemon, src/p2pd_config.c. The answers of `getopt_long` are a list, and `dup i` tells
-- whether the i-th `strdup` has memory.
pub mod Given
mod Tests
use openwfd.Common.{
  ℕ, zero, suc, ◌+◌, ◌-◌, ◌*◌, ◌/◌, ◌%◌, ◌^◌, ◌≤◌, ◌<◌, min, ◌≡◌, refl, sym, ap, ◌∙◌, ◌≢◌, ◌↔◌, ◌⊎◌,
  inl, inr, Bool, true, false, not, ◌&&◌, ◌||◌, Option, none, some, List, [], ◌∷◌, ◌++◌, append-nil,
  append_assoc, arith, ltb, leb, ◌==◌, if◌then◌else◌, Bool-cases, Option-cases, ltb→lt, ltb→ge,
  lt→ltb, ge→ltb, leb→le, leb→gt, le→leb, lt→leb, ==_iff, ==_refl,
}
use openwfd.Common.Memory.{Bytes, Status, ok, fail, Errno, enomem, einval, eagain}
use openwfd.Common.Text.{codes}

-- `struct owfd_p2pd_config`
pub record Config : Type 0 where
  pub verbose : Bool
  pub silent : Bool
  pub debug : Bool
  pub interface : Option Bytes
  pub wpa_binary : Option Bytes
  pub wpa_ctrldir : Option Bytes

-- `owfd_p2pd_init_config`
abbrev pub init_config : Config
init_config = record {
  verbose = false;
  silent = false;
  debug = false;
  interface = none;
  wpa_binary = none;
  wpa_ctrldir = none;
}

-- The options, short and long.
pub data Opt : Type 0 where
  opt_help opt_verbose opt_silent opt_debug opt_interface opt_wpa_binary opt_wpa_ctrldir : Opt

-- A result of `getopt_long`: an option with `optarg`, ':' or '?'.
pub data Got : Type 0 where
  got : Opt → Bytes → Got
  missing_argument unknown_option : Got

-- What the loop leaves: a result, the configuration and `help`.
pub record Parsed : Type 0 where
  pub status : Status
  pub config : Config
  pub help : Bool

abbrev pub parsed : Status → Config → Bool → Parsed
parsed s c h = record { status = s; config = c; help = h }

-- `t = strdup(optarg)` and the test behind it, where `rest` is what follows with the new string.
abbrev pub with_string : Bool → Config → Bool → Parsed → Parsed
with_string true conf help rest = rest
with_string false conf help rest = parsed (fail enomem) conf help

-- The loop over the options, with its `switch`.
unfoldable pub parse_opts : (ℕ → Bool) → Config → Bool → List Got → Parsed
parse_opts dup conf help [] = parsed ok conf help
parse_opts dup conf help (missing_argument ∷ gs) = parsed (fail einval) conf help
parse_opts dup conf help (unknown_option ∷ gs) = parsed (fail einval) conf help
parse_opts dup conf help (got opt_help arg ∷ gs) = parse_opts dup conf true gs
parse_opts dup conf help (got opt_verbose arg ∷ gs) =
    parse_opts dup (record conf { verbose = true }) help gs
parse_opts dup conf help (got opt_silent arg ∷ gs) =
    parse_opts dup (record conf { silent = true }) help gs
parse_opts dup conf help (got opt_debug arg ∷ gs) =
    parse_opts dup (record conf { debug = true }) help gs
parse_opts dup conf help (got opt_interface arg ∷ gs) =
    with_string (dup 0) conf help
      (parse_opts (λ i. dup (i + 1)) (record conf { interface = some arg }) help gs)
parse_opts dup conf help (got opt_wpa_binary arg ∷ gs) =
    with_string (dup 0) conf help
      (parse_opts (λ i. dup (i + 1)) (record conf { wpa_binary = some arg }) help gs)
parse_opts dup conf help (got opt_wpa_ctrldir arg ∷ gs) =
    with_string (dup 0) conf help
      (parse_opts (λ i. dup (i + 1)) (record conf { wpa_ctrldir = some arg }) help gs)

-- A default for a string that is not given: `none` is no memory.
abbrev pub or_default : Bool → Bytes → Option Bytes → Option Bytes
or_default dup d (some s) = some s
or_default true d none = some d
or_default false d none = none

-- `/run/wpa_supplicant`
abbrev pub default_ctrldir : Bytes
default_ctrldir = codes "/run/wpa_supplicant"

-- The two defaults at the end of `owfd_p2pd_parse_argv`.
abbrev pub set_ctrldir : Option Bytes → Config → Status × Config
set_ctrldir none c = (fail enomem, c)
set_ctrldir (some s) c = (ok, record c { wpa_ctrldir = some s })

abbrev pub set_binary : Bool → Option Bytes → Config → Status × Config
set_binary dup none c = (fail enomem, c)
set_binary dup (some s) c =
    set_ctrldir (or_default dup default_ctrldir c.wpa_ctrldir) (record c { wpa_binary = some s })

-- `!conf->interface`
abbrev pub need_interface : Option Bytes → Config → Status × Config → Status × Config
need_interface none c rest = (fail einval, c)
need_interface (some i) c rest = rest

-- `owfd_p2pd_parse_argv` behind the loop: whether there is help to show, whether arguments are left.
abbrev pub check_config : Bool → Bool → (ℕ → Bool) → Bytes → Config → Status × Config
check_config true left dup binary c = (fail eagain, c)
check_config false true dup binary c = (fail einval, c)
check_config false false dup binary c =
    need_interface c.interface c (set_binary (dup 1) (or_default (dup 0) binary c.wpa_binary) c)

abbrev pub behind_opts : Status → Parsed → Bool → (ℕ → Bool) → Bytes → Status × Config
behind_opts (fail e) p left dup binary = (fail e, p.config)
behind_opts ok p left dup binary = check_config p.help left dup binary p.config

-- `owfd_p2pd_parse_argv`: `dup` answers to the loop, `dup'` behind it, and `binary` is the path that the build gives to
-- wpa_supplicant.
unfoldable pub parse_argv :
    Bytes → (ℕ → Bool) → (ℕ → Bool) → List Got → Bool → Config → Status × Config
unfolding parse_opts
parse_argv binary dup dup' gs left c =
    let p = parse_opts dup c false gs in behind_opts p.status p left dup' binary
