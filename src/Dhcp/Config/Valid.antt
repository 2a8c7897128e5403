-- ===== src/Dhcp/Config/Valid.antt =====
-- What a configuration of src/dhcp_config.c has that `owfd_dhcp_parse_argv` accepts.
use openwfd.Common.{
  ℕ, ◌≡◌, refl, sym, ap, ◌∙◌, ◌≢◌, ◌⊎◌, inl, inr, Bool, true, false, not, ◌&&◌, Option, none, some,
  List, arith, if◌then◌else◌, Bool-cases, Option-cases,
}
use openwfd.Common.Memory.{Bytes, ok, einval, eagain}
use openwfd.Common.Strings.{none-some}
use openwfd.Dhcp.Config.{
  Config, init_config, Got, set_string, parse_opts, check_server, default_ip, check_config,
  parse_argv,
}
use openwfd.Dhcp.Config.Modes.{
  Modes, Status-cases, parse_opts-Modes, both, guard_ok, interface_ok, set_string_ok,
}
use openwfd.Dhcp.Config.Server.{rest_of, failed, Addresses, check_server-Checked}

module _ (build_ip : Bytes) (inet_pton : Bytes → Option Bytes) (inet_ntop : Bytes → Bytes) where
  -- The configuration that `parse_argv` accepts.
  pub record ValidConfig (c : Config) : Type 0 where
    pub one_mode : (c.client ≡ true × c.server ≡ false) ⊎ (c.client ≡ false × c.server ≡ true)
    pub only_ipv4 : c.ipv4 ≡ true × c.ipv6 ≡ false
    pub has_interface : c.interface ≢ none
    pub has_ip_binary : c.ip_binary ≢ none
    pub addresses : c.server ≡ true → Addresses build_ip inet_pton inet_ntop c

  -- The default of `ip_binary` sets no other field.
  record Defaulted (c d : Config) : Type 0 where
    binary : Option Bytes
    present : binary ≢ none
    result : d ≡ record c { ip_binary = binary }

  default_ip-Defaulted :
      (dup : Bool) (c d : Config)
      → default_ip build_ip inet_pton inet_ntop dup c ≡ (ok, d)
      → Defaulted c d
  unfolding default_ip
  default_ip-Defaulted dup c d h = elim (Option-cases c.ip_binary) [
    | inl e ↦
        let r : default_ip build_ip inet_pton inet_ntop dup c
            ≡ set_string dup c (record c { ip_binary = some build_ip }) =
          ap
            (λ o. elim o [
              | none ↦ set_string dup c (record c { ip_binary = some build_ip })
              | some _ ↦ (ok, c)
            ])
            e in
        record {
          binary = some build_ip;
          present = λ q. none-some (sym q);
          result = set_string_ok dup c (record c { ip_binary = some build_ip }) d (sym r ∙ h);
        }
    | inr (b, e) ↦
        let r : default_ip build_ip inet_pton inet_ntop dup c ≡ (ok, c) =
          ap
            (λ o. elim o [
              | none ↦ set_string dup c (record c { ip_binary = some build_ip })
              | some _ ↦ (ok, c)
            ])
            e in
        record {
          binary = c.ip_binary;
          present = λ q. none-some (sym q ∙ e);
          result = sym (ap (λ y. y.1) (sym r ∙ h));
        }
  ]

  -- What the checks have found in front of the block for servers.
  record Ready (c : Config) : Type 0 where
    modes : Modes c
    some_mode : (not c.client && not c.server) ≡ false
    is_ipv4 : c.ipv4 ≡ true
    is_ipv6 : c.ipv6 ≡ false
    interface : c.interface ≢ none
    binary : c.ip_binary ≢ none

  -- Only addresses have changed since.
  Ready-ValidConfig :
      (c d : Config)
      → Ready c
      → rest_of d ≡ rest_of c
      → (d.server ≡ true → Addresses build_ip inet_pton inet_ntop d)
      → ValidConfig d
  Ready-ValidConfig c d r e a =
      let client : d.client ≡ c.client = ap (λ x. x.client) e in
      let server : d.server ≡ c.server = ap (λ x. x.server) e in
      record {
        one_mode = elim (Bool-cases c.client) [
          | inl y ↦ inl (client ∙ y, server ∙ ground (arith, r.modes.mode, y))
          | inr y ↦ inr (client ∙ y, server ∙ ground (arith, r.some_mode, y))
        ];
        only_ipv4 = (ap (λ x. x.ipv4) e ∙ r.is_ipv4, ap (λ x. x.ipv6) e ∙ r.is_ipv6);
        has_interface = λ q. r.interface (sym (ap (λ x. x.interface) e) ∙ q);
        has_ip_binary = λ q. r.binary (sym (ap (λ x. x.ip_binary) e) ∙ q);
        addresses = a;
      }

  server_block :
      (dup : ℕ → Bool) (b : Bool) (c d : Config)
      → c.server ≡ b
      → Ready c
      → (if b then check_server build_ip inet_pton inet_ntop dup c else (ok, c)) ≡ (ok, d)
      → ValidConfig d
  server_block dup true c d s r h =
      let q = check_server-Checked build_ip inet_pton inet_ntop dup c d r.is_ipv4 h in
      Ready-ValidConfig c d r q.rest (λ _. q.addresses)
  server_block dup false c d s r h =
      let same : d ≡ c = sym (ap (λ y. y.1) h) in
      Ready-ValidConfig c d r (ap rest_of same) (λ t.
        let no : true ≡ false = sym t ∙ ap (λ x. x.server) same ∙ s in absurd (ground (arith, no)))

  check_config-ValidConfig :
      (dup : ℕ → Bool) (help rest : Bool) (c d : Config)
      → Modes c
      → check_config build_ip inet_pton inet_ntop dup help rest c ≡ (ok, d)
      → ValidConfig d
  unfolding check_config
  check_config-ValidConfig dup help rest c d m h =
      let (_, h1) = guard_ok help eagain c _ d h in
      let (_, h2) = guard_ok rest einval c _ d h1 in
      let (g, h3) = guard_ok (not c.client && not c.server) einval c _ d h2 in
      let (v, h4) = guard_ok (not c.ipv4 && not c.ipv6) einval c _ d h3 in
      let (w, h5) = guard_ok c.ipv6 einval c _ d h4 in
      let (i, h6) = interface_ok c.interface einval c _ d h5 in
      let b = both (default_ip build_ip inet_pton inet_ntop (dup 6) c) _ d h6 in
      let f = default_ip-Defaulted (dup 6) c b.mid b.first in
      let four : c.ipv4 ≡ true = ground (arith, v, w) in
      let r : Ready (record c { ip_binary = f.binary }) = record {
        modes = record { mode = m.mode; version = m.version };
        some_mode = g;
        is_ipv4 = four;
        is_ipv6 = w;
        interface = i;
        binary = f.present;
      } in
      server_block dup b.mid.server b.mid d refl (rw f.result r) b.second

  -- From a fresh configuration, whatever the options, the allocator, inet_pton and inet_ntop: if
  -- owfd_dhcp_parse_argv returns 0, the configuration has exactly one of client and server, IPv4 and
  -- not IPv6, an interface and a path of `ip`, and for a server each of the six addresses is the
  -- text of the IPv4 address in an IPv6 address that was parsed.
  pub parse_argv-ValidConfig :
      (dup dup' : ℕ → Bool) (gots : List Got) (rest : Bool) (conf : Config)
      → parse_argv build_ip inet_pton inet_ntop dup dup' init_config gots rest ≡ (ok, conf)
      → ValidConfig conf
  unfolding parse_argv
  parse_argv-ValidConfig dup dup' gots rest conf h =
      let p = parse_opts dup init_config false gots in
      let m =
        parse_opts-Modes dup init_config false gots (record { mode = refl; version = refl }) in
      elim (Status-cases p.0) [
        | inl e ↦
            let r : parse_argv build_ip inet_pton inet_ntop dup dup' init_config gots rest
                ≡ check_config build_ip inet_pton inet_ntop dup' p.2 rest p.1 =
              rw (parse_argv, e) in
            check_config-ValidConfig dup' p.2 rest p.1 conf m (sym r ∙ h)
        | inr (x, e) ↦ absurd (
            failed build_ip inet_pton inet_ntop x
              (parse_argv build_ip inet_pton inet_ntop dup dup' init_config gots rest) (ok, conf) h
              (rw (parse_argv, e)) refl)
      ]
