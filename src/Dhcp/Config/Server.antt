-- ===== src/Dhcp/Config/Server.antt =====
-- The addresses of a server that src/dhcp_config.c accepts.
use openwfd.Common.{
  ℕ, ◌≡◌, refl, sym, ap, ◌∙◌, ◌≢◌, inl, inr, Bool, true, Option, none, some, Bool-cases,
  Option-cases,
}
use openwfd.Common.{drop}
use openwfd.Common.Memory.{Bytes, Status, ok, fail, Errno, enomem, einval}
use openwfd.Dhcp.Config.{
  Config, and_next, is_mapped, convert, check_server, convert_local, convert_gateway, convert_dns,
  convert_subnet, convert_ip_from, convert_ip_to,
}
use openwfd.Dhcp.Config.Modes.{fail-ok, both}

-- A configuration without its addresses.
abbrev pub rest_of : Config → Config
rest_of c = record c {
  local = none;
  gateway = none;
  dns = none;
  subnet = none;
  ip_from = none;
  ip_to = none;
}

module _ (build_ip : Bytes) (inet_pton : Bytes → Option Bytes) (inet_ntop : Bytes → Bytes) where
  -- An IPv4 address in the text that `inet_ntop` gives it.
  pub record Dotted (v : Option Bytes) : Type 0 where
    pub arg : Bytes
    pub addr : Bytes
    pub parsed : inet_pton arg ≡ some addr
    pub mapped : is_mapped addr ≡ true
    pub shown : v ≡ some (inet_ntop (drop 12 addr))

  pub failed : {A : Type 0} (x : Errno) (p q : Status × A) → p ≡ q → p.0 ≡ fail x → q.0 ≢ ok
  failed x p q e f g = fail-ok x (sym f ∙ ap (λ y. y.0) e ∙ g)

  convert-Dotted :
      (dup : Bool) (a v : Option Bytes)
      → convert build_ip inet_pton inet_ntop dup true a ≡ (ok, v)
      → Dotted v
  unfolding convert
  convert-Dotted dup none v e = absurd (fail-ok einval (ap (λ y. y.0) e))
  convert-Dotted dup (some arg) v e = elim (Option-cases (inet_pton arg)) [
    | inl p ↦ absurd (
        failed einval (convert build_ip inet_pton inet_ntop dup true (some arg)) (ok, v) e
          (rw (convert, p)) refl)
    | inr (addr, p) ↦ elim (Bool-cases (is_mapped addr)) [
      | inr q ↦ absurd (
          failed einval (convert build_ip inet_pton inet_ntop dup true (some arg)) (ok, v) e
            (rw (convert, p, q)) refl)
      | inl q ↦ elim (Bool-cases dup) [
        | inr d ↦ absurd (
            failed enomem (convert build_ip inet_pton inet_ntop dup true (some arg)) (ok, v) e
              (rw (convert, p, q, d)) refl)
        | inl d ↦
            let r : (convert build_ip inet_pton inet_ntop dup true (some arg)).1
                ≡ some (inet_ntop (drop 12 addr)) =
              rw (convert, p, q, d, p) in
            record {
              arg = arg;
              addr = addr;
              parsed = p;
              mapped = q;
              shown = sym (ap (λ y. y.1) e) ∙ r;
            }
      ]
    ]
  ]

  -- One step of the block for servers: `set` stores the address.
  record Stepped (set : Option Bytes → Config) (d : Config) : Type 0 where
    value : Option Bytes
    dotted : Dotted value
    result : d ≡ set value

  abbrev stored : Status × Option Bytes → (Option Bytes → Config) → Status × Config
  stored r set = (r.0, set r.1)

  stepped :
      (dup b : Bool) (a : Option Bytes) (set : Option Bytes → Config) (d : Config)
      → b ≡ true
      → stored (convert build_ip inet_pton inet_ntop dup b a) set ≡ (ok, d)
      → Stepped set d
  stepped dup b a set d h e =
      let r = convert build_ip inet_pton inet_ntop dup b a in
      let v : convert build_ip inet_pton inet_ntop dup true a ≡ (ok, r.1) =
        ap (λ t. convert build_ip inet_pton inet_ntop dup t a) (sym h)
        ∙ ap (λ s. (s, r.1)) (ap (λ y. y.0) e) in
      record { value = r.1; dotted = convert-Dotted dup a r.1 v; result = sym (ap (λ y. y.1) e) }

  convert_local-Stepped :
      (dup : Bool) (c d : Config)
      → c.ipv4 ≡ true
      → convert_local build_ip inet_pton inet_ntop dup c ≡ (ok, d)
      → Stepped (λ v. record c { local = v }) d
  unfolding convert_local
  convert_local-Stepped dup c d h e = stepped dup c.ipv4 c.local (λ v. record c { local = v }) d h e

  convert_gateway-Stepped :
      (dup : Bool) (c d : Config)
      → c.ipv4 ≡ true
      → convert_gateway build_ip inet_pton inet_ntop dup c ≡ (ok, d)
      → Stepped (λ v. record c { gateway = v }) d
  unfolding convert_gateway
  convert_gateway-Stepped dup c d h e =
      stepped dup c.ipv4 c.gateway (λ v. record c { gateway = v }) d h e

  convert_dns-Stepped :
      (dup : Bool) (c d : Config)
      → c.ipv4 ≡ true
      → convert_dns build_ip inet_pton inet_ntop dup c ≡ (ok, d)
      → Stepped (λ v. record c { dns = v }) d
  unfolding convert_dns
  convert_dns-Stepped dup c d h e = stepped dup c.ipv4 c.dns (λ v. record c { dns = v }) d h e

  convert_subnet-Stepped :
      (dup : Bool) (c d : Config)
      → c.ipv4 ≡ true
      → convert_subnet build_ip inet_pton inet_ntop dup c ≡ (ok, d)
      → Stepped (λ v. record c { subnet = v }) d
  unfolding convert_subnet
  convert_subnet-Stepped dup c d h e =
      stepped dup c.ipv4 c.subnet (λ v. record c { subnet = v }) d h e

  convert_ip_from-Stepped :
      (dup : Bool) (c d : Config)
      → c.ipv4 ≡ true
      → convert_ip_from build_ip inet_pton inet_ntop dup c ≡ (ok, d)
      → Stepped (λ v. record c { ip_from = v }) d
  unfolding convert_ip_from
  convert_ip_from-Stepped dup c d h e =
      stepped dup c.ipv4 c.ip_from (λ v. record c { ip_from = v }) d h e

  convert_ip_to-Stepped :
      (dup : Bool) (c d : Config)
      → c.ipv4 ≡ true
      → convert_ip_to build_ip inet_pton inet_ntop dup c ≡ (ok, d)
      → Stepped (λ v. record c { ip_to = v }) d
  unfolding convert_ip_to
  convert_ip_to-Stepped dup c d h e = stepped dup c.ipv4 c.ip_to (λ v. record c { ip_to = v }) d h e

  -- What a server needs.
  pub record Addresses (c : Config) : Type 0 where
    pub local_dotted : Dotted c.local
    pub gateway_dotted : Dotted c.gateway
    pub dns_dotted : Dotted c.dns
    pub subnet_dotted : Dotted c.subnet
    pub ip_from_dotted : Dotted c.ip_from
    pub ip_to_dotted : Dotted c.ip_to

  by_equation : (v w : Option Bytes) → w ≡ v → Dotted v → Dotted w
  by_equation v w e d = rw e d

  -- What the block for servers does to a configuration.
  pub record Checked (c d : Config) : Type 0 where
    pub addresses : Addresses d
    pub rest : rest_of d ≡ rest_of c

  pub check_server-Checked :
      (dup : ℕ → Bool) (c d : Config)
      → c.ipv4 ≡ true
      → check_server build_ip inet_pton inet_ntop dup c ≡ (ok, d)
      → Checked c d
  unfolding check_server
  check_server-Checked dup c d h e =
      let k5 : Config → Status × Config =
        λ g. convert_ip_to build_ip inet_pton inet_ntop (dup 5) g in
      let k4 : Config → Status × Config =
        λ f. and_next (convert_ip_from build_ip inet_pton inet_ntop (dup 4) f) k5 in
      let k3 : Config → Status × Config =
        λ e. and_next (convert_subnet build_ip inet_pton inet_ntop (dup 3) e) k4 in
      let k2 : Config → Status × Config =
        λ d. and_next (convert_dns build_ip inet_pton inet_ntop (dup 2) d) k3 in
      let k1 : Config → Status × Config =
        λ c. and_next (convert_gateway build_ip inet_pton inet_ntop (dup 1) c) k2 in
      let b0 = both (convert_local build_ip inet_pton inet_ntop (dup 0) c) k1 d e in
      let s0 = convert_local-Stepped (dup 0) c b0.mid h b0.first in
      let h0 : b0.mid.ipv4 ≡ true = ap (λ x. x.ipv4) s0.result ∙ h in
      let b1 = both (convert_gateway build_ip inet_pton inet_ntop (dup 1) b0.mid) k2 d b0.second in
      let s1 = convert_gateway-Stepped (dup 1) b0.mid b1.mid h0 b1.first in
      let h1 : b1.mid.ipv4 ≡ true = ap (λ x. x.ipv4) s1.result ∙ h0 in
      let b2 = both (convert_dns build_ip inet_pton inet_ntop (dup 2) b1.mid) k3 d b1.second in
      let s2 = convert_dns-Stepped (dup 2) b1.mid b2.mid h1 b2.first in
      let h2 : b2.mid.ipv4 ≡ true = ap (λ x. x.ipv4) s2.result ∙ h1 in
      let b3 = both (convert_subnet build_ip inet_pton inet_ntop (dup 3) b2.mid) k4 d b2.second in
      let s3 = convert_subnet-Stepped (dup 3) b2.mid b3.mid h2 b3.first in
      let h3 : b3.mid.ipv4 ≡ true = ap (λ x. x.ipv4) s3.result ∙ h2 in
      let b4 = both (convert_ip_from build_ip inet_pton inet_ntop (dup 4) b3.mid) k5 d b3.second in
      let s4 = convert_ip_from-Stepped (dup 4) b3.mid b4.mid h3 b4.first in
      let h4 : b4.mid.ipv4 ≡ true = ap (λ x. x.ipv4) s4.result ∙ h3 in
      let s5 = convert_ip_to-Stepped (dup 5) b4.mid d h4 b4.second in
      record {
        addresses = record {
          local_dotted =
              by_equation s0.value d.local
                (ap (λ x. x.local) s5.result
                  ∙ ap (λ x. x.local) s4.result
                  ∙ ap (λ x. x.local) s3.result
                  ∙ ap (λ x. x.local) s2.result
                  ∙ ap (λ x. x.local) s1.result
                  ∙ ap (λ x. x.local) s0.result)
                s0.dotted;
          gateway_dotted =
              by_equation s1.value d.gateway
                (ap (λ x. x.gateway) s5.result
                  ∙ ap (λ x. x.gateway) s4.result
                  ∙ ap (λ x. x.gateway) s3.result
                  ∙ ap (λ x. x.gateway) s2.result
                  ∙ ap (λ x. x.gateway) s1.result)
                s1.dotted;
          dns_dotted =
              by_equation s2.value d.dns
                (ap (λ x. x.dns) s5.result
                  ∙ ap (λ x. x.dns) s4.result
                  ∙ ap (λ x. x.dns) s3.result
                  ∙ ap (λ x. x.dns) s2.result)
                s2.dotted;
          subnet_dotted =
              by_equation s3.value d.subnet
                (ap (λ x. x.subnet) s5.result
                  ∙ ap (λ x. x.subnet) s4.result
                  ∙ ap (λ x. x.subnet) s3.result)
                s3.dotted;
          ip_from_dotted =
              by_equation s4.value d.ip_from
                (ap (λ x. x.ip_from) s5.result ∙ ap (λ x. x.ip_from) s4.result) s4.dotted;
          ip_to_dotted = by_equation s5.value d.ip_to (ap (λ x. x.ip_to) s5.result) s5.dotted;
        };
        rest =
            ap rest_of s5.result
            ∙ ap rest_of s4.result
            ∙ ap rest_of s3.result
            ∙ ap rest_of s2.result
            ∙ ap rest_of s1.result
            ∙ ap rest_of s0.result;
      }
