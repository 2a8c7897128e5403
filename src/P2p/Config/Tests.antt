-- ===== src/P2p/Config/Tests.antt =====
-- Tests of the command line of src/p2pd_config.c.
use openwfd.Common.{ℕ, ◌≡◌, refl, Bool, true, false, some, List, [], ◌∷◌}
use openwfd.Common.Memory.{Bytes, Status, ok, fail, eagain, einval}
use openwfd.Common.Text.{codes}
use openwfd.P2p.Config.{
  Config, init_config, Got, got, opt_help, opt_verbose, opt_interface, opt_wpa_ctrldir, parse_opts,
  parse_argv,
}
use openwfd.P2p.Config.Given.{any_of, is_help, settings, Accepted, parse_argv-Accepted}

abbrev binary : Bytes
binary = codes "/usr/bin/wpa_supplicant"

abbrev always : ℕ → Bool
always i = true

abbrev options : List Got
options =
    got opt_interface (codes "wlan0")
    ∷ got opt_verbose []
    ∷ got opt_wpa_ctrldir (codes "/run/a")
    ∷ got opt_interface (codes "wlan1")
    ∷ []

abbrev accepted : Config
accepted = record {
  verbose = true;
  silent = false;
  debug = false;
  interface = some (codes "wlan1");
  wpa_binary = some binary;
  wpa_ctrldir = some (codes "/run/a");
}

unfoldable run : List Got → Bool → Status × Config
unfolding parse_argv parse_opts
run gs left = parse_argv binary always always gs left init_config

run-accepted : run options false ≡ (ok, accepted)
unfolding run
run-accepted = refl

run_help : (run (got opt_help [] ∷ options) false).0 ≡ fail eagain
unfolding run
run_help = refl

run_nothing : (run [] false).0 ≡ fail einval
unfolding run
run_nothing = refl

parse_argv-Accepted_example :
    ((any_of is_help options false ≡ false) × (false ≡ false))
    × Accepted binary (settings options init_config) accepted
unfolding run
parse_argv-Accepted_example =
    parse_argv-Accepted binary always always options false init_config accepted run-accepted
