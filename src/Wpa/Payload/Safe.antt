-- ===== src/Wpa/Payload/Safe.antt =====
-- The parse functions of src/wpa_parser.c never read behind the tokens that they are given.
use openwfd.Common.{
  ℕ, zero, suc, ◌-◌, ◌≡◌, refl, inl, inr, Bool, true, false, Option, none, some, [], arith, ltb,
  if◌then◌else◌, Bool-cases,
}
use openwfd.Common.{drop}
use openwfd.Common.Memory.{Bytes, einval, enomem}
use openwfd.Common.Text.{codes, starts_with}
use openwfd.Common.Strings.{skip_strings, next_string_lem}
use openwfd.Wpa.Events
use openwfd.Wpa.Events.{Kind}
use openwfd.Wpa.Payload.{
  Role, Payload, parsed, failed, blank, parse_role, with_mac, go_neg_loop, parse_p2p_go_neg_success,
  find_go_mac, group_role, group_named, parse_p2p_group_started, pin_of,
  parse_p2p_prov_disc_show_pin, parse_payload,
}
use openwfd.Wpa.Payload.Found.{
  Returns, returns, by_equation, parse_mac_lem, parse_one_mac-Returns,
  parse_p2p_device_found-Returns, go_neg_loop-Returns,
}

find_go_mac-Returns :
    (ifname : Bytes) (role : Role) (n : ℕ) (tokens : Bytes)
    → skip_strings n tokens ≡ some []
    → Returns (find_go_mac ifname role n tokens)
unfolding find_go_mac
find_go_mac-Returns ifname role zero tokens h =
    returns (find_go_mac ifname role 0 tokens) (failed einval) refl
find_go_mac-Returns ifname role (suc n) tokens h =
    let x = next_string_lem n tokens h in
    let o = find_go_mac ifname role (suc n) tokens in
    elim (Bool-cases (starts_with (codes "go_dev_addr=") x.string)) [
      | inl e ↦
          let m = parse_mac_lem (drop 12 x.string) in
          returns o (with_mac (λ a. Payload.group_started a role ifname) m.mac)
            (rw (find_go_mac, x.taken, e, m.read))
      | inr e ↦
          by_equation o (find_go_mac ifname role n x.rest) (rw (find_go_mac, x.taken, e))
            (find_go_mac-Returns ifname role n x.rest x.left)
    ]

group_role-Returns :
    (ifname : Bytes) (n : ℕ) (r : Option Role) (rest : Bytes)
    → skip_strings n rest ≡ some []
    → Returns (group_role ifname n r rest)
unfolding group_role
group_role-Returns ifname n none rest h =
    returns (group_role ifname n none rest) (failed einval) refl
group_role-Returns ifname n (some r) rest h = find_go_mac-Returns ifname r n rest h

group_named-Returns :
    (dup : Bool) (n : ℕ) (ifname rest : Bytes)
    → skip_strings (suc n) rest ≡ some []
    → Returns (group_named dup n ifname rest)
unfolding group_named
group_named-Returns false n ifname rest h =
    returns (group_named false n ifname rest) (failed enomem) refl
group_named-Returns true n ifname rest h =
    let x = next_string_lem n rest h in
    by_equation (group_named true n ifname rest) (group_role ifname n (parse_role x.string) x.rest)
      (rw x.taken) (group_role-Returns ifname n (parse_role x.string) x.rest x.left)

parse_p2p_group_started-Returns :
    (dup : Bool) (tokens : Bytes) (num : ℕ)
    → skip_strings num tokens ≡ some []
    → Returns (parse_p2p_group_started dup tokens num)
unfolding parse_p2p_group_started
parse_p2p_group_started-Returns dup tokens zero h =
    returns (parse_p2p_group_started dup tokens 0) (failed einval) refl
parse_p2p_group_started-Returns dup tokens (suc zero) h =
    returns (parse_p2p_group_started dup tokens 1) (failed einval) refl
parse_p2p_group_started-Returns dup tokens (suc (suc n)) h =
    elim (Bool-cases (ltb (suc (suc n)) 3)) [
      | inl e ↦ returns (parse_p2p_group_started dup tokens (suc (suc n))) (failed einval) (rw e)
      | inr e ↦
          let x = next_string_lem (suc n) tokens h in
          let m : suc (suc n) - 2 ≡ n = omega arith in
          by_equation (parse_p2p_group_started dup tokens (suc (suc n)))
            (group_named dup n x.string x.rest) (rw (e, x.taken, m))
            (group_named-Returns dup n x.string x.rest x.left)
    ]

pin_of-Returns :
    (dup : Bool) (m : Option Bytes) (n : ℕ) (rest : Bytes)
    → skip_strings (suc n) rest ≡ some []
    → Returns (pin_of dup m rest)
unfolding pin_of
pin_of-Returns dup none n rest h = returns (pin_of dup none rest) (failed einval) refl
pin_of-Returns dup (some mac) n rest h =
    let x = next_string_lem n rest h in
    returns (pin_of dup (some mac) rest)
      (if dup then parsed (Payload.show_pin mac x.string) else failed enomem) (rw x.taken)

parse_p2p_prov_disc_show_pin-Returns :
    (dup : Bool) (tokens : Bytes) (num : ℕ)
    → skip_strings num tokens ≡ some []
    → Returns (parse_p2p_prov_disc_show_pin dup tokens num)
unfolding parse_p2p_prov_disc_show_pin
parse_p2p_prov_disc_show_pin-Returns dup tokens zero h =
    returns (parse_p2p_prov_disc_show_pin dup tokens 0) (failed einval) refl
parse_p2p_prov_disc_show_pin-Returns dup tokens (suc zero) h =
    returns (parse_p2p_prov_disc_show_pin dup tokens 1) (failed einval) refl
parse_p2p_prov_disc_show_pin-Returns dup tokens (suc (suc n)) h =
    let x = next_string_lem (suc n) tokens h in
    let m = parse_mac_lem x.string in
    let e : ltb (suc (suc n)) 2 ≡ false = ground arith in
    by_equation (parse_p2p_prov_disc_show_pin dup tokens (suc (suc n))) (pin_of dup m.mac x.rest)
      (rw (e, x.taken, m.read)) (pin_of-Returns dup m.mac n x.rest x.left)

parse_p2p_go_neg_success-Returns :
    (tokens : Bytes) (num : ℕ)
    → skip_strings num tokens ≡ some []
    → Returns (parse_p2p_go_neg_success tokens num)
unfolding parse_p2p_go_neg_success
parse_p2p_go_neg_success-Returns tokens num h = elim (Bool-cases (ltb num 2)) [
  | inl e ↦ returns (parse_p2p_go_neg_success tokens num) (failed einval) (rw e)
  | inr e ↦
      by_equation (parse_p2p_go_neg_success tokens num) (go_neg_loop num none none tokens) (rw e)
        (go_neg_loop-Returns num none none tokens h)
]

pub parse_payload-Returns :
    (k : Kind) (dup : Bool) (tokens : Bytes) (num : ℕ)
    → skip_strings num tokens ≡ some []
    → Returns (parse_payload k dup tokens num)
unfolding parse_payload
parse_payload-Returns Events.ap_sta_connected dup tokens num h =
    parse_one_mac-Returns Payload.sta_connected tokens num h
parse_payload-Returns Events.ap_sta_disconnected dup tokens num h =
    parse_one_mac-Returns Payload.sta_disconnected tokens num h
parse_payload-Returns Events.p2p_device_found dup tokens num h =
    parse_p2p_device_found-Returns dup tokens num h
parse_payload-Returns Events.p2p_go_neg_success dup tokens num h =
    parse_p2p_go_neg_success-Returns tokens num h
parse_payload-Returns Events.p2p_group_started dup tokens num h =
    parse_p2p_group_started-Returns dup tokens num h
parse_payload-Returns Events.p2p_prov_disc_show_pin dup tokens num h =
    parse_p2p_prov_disc_show_pin-Returns dup tokens num h
parse_payload-Returns Events.p2p_prov_disc_enter_pin dup tokens num h =
    parse_one_mac-Returns Payload.enter_pin tokens num h
parse_payload-Returns Events.p2p_prov_disc_pbc_req dup tokens num h =
    parse_one_mac-Returns Payload.pbc_req tokens num h
parse_payload-Returns Events.p2p_prov_disc_pbc_resp dup tokens num h =
    parse_one_mac-Returns Payload.pbc_resp tokens num h
parse_payload-Returns _ dup tokens num h = record { value = parsed blank; returned = refl }
