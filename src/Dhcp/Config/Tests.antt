-- ===== src/Dhcp/Config/Tests.antt =====
-- Runs of the command line of src/dhcp_config.c.
use openwfd.Common.{ℕ, true, false, Bool, Option, some, List, [], ◌∷◌, ◌++◌, ◌≡◌, refl}
use openwfd.Common.Memory.{Bytes, Status, ok, fail, einval, eagain}
use openwfd.Common.Text.{codes, starts_with}
use openwfd.Dhcp.Config.{
  Config, init_config, Got, got, opt_help, opt_server, opt_client, opt_ipv4, opt_ipv6,
  opt_interface, opt_local, opt_gateway, opt_dns, opt_subnet, opt_ip_from, opt_ip_to, is_mapped,
  apply_opt, parse_argv,
}
use openwfd.Dhcp.Config.Valid.{ValidConfig, parse_argv-ValidConfig}

-- Every text is the address 10.0.0.1 behind the prefix of IPv4 addresses.
abbrev parsed_text : Bytes → Option Bytes
parsed_text s = some (0 ∷ 0 ∷ 0 ∷ 0 ∷ 0 ∷ 0 ∷ 0 ∷ 0 ∷ 0 ∷ 0 ∷ 255 ∷ 255 ∷ 10 ∷ 0 ∷ 0 ∷ 1 ∷ [])

abbrev shown_text : Bytes → Bytes
shown_text bs = codes "10.0.0.1"

abbrev always : ℕ → Bool
always i = true

unfoldable run : List Got → Status × Config
unfolding parse_argv apply_opt is_mapped starts_with
run gots = parse_argv (codes "/bin/ip") parsed_text shown_text always always init_config gots false

abbrev server : List Got
server =
    got opt_client []
    ∷ got opt_server []
    ∷ got opt_ipv4 []
    ∷ got opt_interface (codes "p0")
    ∷ got opt_local (codes "a")
    ∷ got opt_gateway (codes "b")
    ∷ got opt_dns (codes "c")
    ∷ got opt_subnet (codes "d")
    ∷ got opt_ip_from (codes "e")
    ∷ got opt_ip_to (codes "f")
    ∷ []

help_wins : (run (got opt_help [] ∷ [])).0 ≡ fail eagain
unfolding run
help_wins = refl

ipv6_refused : (run (server ++ got opt_ipv6 [] ∷ [])).0 ≡ fail einval
unfolding run
ipv6_refused = refl

server_taken : (run server).0 ≡ ok
unfolding run
server_taken = refl

parse_argv-ValidConfig_example : ValidConfig (codes "/bin/ip") parsed_text shown_text (run server).1
unfolding run
parse_argv-ValidConfig_example =
    parse_argv-ValidConfig (codes "/bin/ip") parsed_text shown_text always always server false
      (run server).1 refl
