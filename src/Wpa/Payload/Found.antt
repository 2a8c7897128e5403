-- ===== src/Wpa/Payload/Found.antt =====
-- The parse functions of src/wpa_parser.c for found devices and negotiations never read behind the
-- tokens that they are given.
use openwfd.Common.{
  ℕ, zero, suc, ◌-◌, ◌≡◌, refl, ◌∙◌, inl, inr, Bool, true, false, Option, none, some, [], arith,
  ltb, if◌then◌else◌, Bool-cases, Option-cases,
}
use openwfd.Common.{length, drop}
use openwfd.Common.Memory.{Bytes, einval, enomem}
use openwfd.Common.Text.{codes, starts_with}
use openwfd.Common.Strings.{skip_strings, next_string_lem}
use openwfd.Wpa.Payload.{
  Role, Payload, Parsed, parsed, failed, scans_mac, strcpy, mac_size, parse_mac, parse_role,
  with_mac, parse_one_mac, find_name, found_device, parse_p2p_device_found, go_neg_end, go_neg_loop,
}

-- A result that is no fault.
pub record Returns (o : Option Parsed) : Type 0 where
  pub value : Parsed
  pub returned : o ≡ some value

pub returns : (o : Option Parsed) (v : Parsed) → o ≡ some v → Returns o
returns o v e = record { value = v; returned = e }

pub by_equation : (o o' : Option Parsed) → o ≡ o' → Returns o' → Returns o
by_equation o o' e r = record { value = r.value; returned = e ∙ r.returned }

-- A MAC that has been read, or refused, with no write behind its buffer.
pub record ReadMac (s : Bytes) : Type 0 where
  pub mac : Option Bytes
  pub read : parse_mac s ≡ some mac

strcpy_lem : (s : Bytes) → ltb 17 (length s) ≡ false → strcpy mac_size s ≡ some s
unfolding strcpy
strcpy_lem s e = let f : ltb (length s) mac_size ≡ true = ground (arith, e) in rw f

pub parse_mac_lem : (s : Bytes) → ReadMac s
unfolding parse_mac
parse_mac_lem s = elim (Bool-cases (ltb 17 (length s))) [
  | inl e ↦ record { mac = none; read = rw e }
  | inr e ↦ elim (Bool-cases (scans_mac s)) [
    | inl f ↦ record { mac = some s; read = rw (e, f, strcpy_lem s e) }
    | inr f ↦ record { mac = none; read = rw (e, f) }
  ]
]

pub parse_one_mac-Returns :
    (f : Bytes → Payload) (tokens : Bytes) (num : ℕ)
    → skip_strings num tokens ≡ some []
    → Returns (parse_one_mac f tokens num)
unfolding parse_one_mac
parse_one_mac-Returns f tokens zero h = returns (parse_one_mac f tokens 0) (failed einval) refl
parse_one_mac-Returns f tokens (suc n) h =
    let x = next_string_lem n tokens h in
    let m = parse_mac_lem x.string in
    let e : ltb (suc n) 1 ≡ false = ground arith in
    returns (parse_one_mac f tokens (suc n)) (with_mac f m.mac) (rw (e, x.taken, m.read))

find_name-Returns :
    (dup : Bool) (mac : Bytes) (n : ℕ) (tokens : Bytes)
    → skip_strings n tokens ≡ some []
    → Returns (find_name dup mac n tokens)
unfolding find_name
find_name-Returns dup mac zero tokens h = returns (find_name dup mac 0 tokens) (failed einval) refl
find_name-Returns dup mac (suc n) tokens h =
    let x = next_string_lem n tokens h in
    elim (Bool-cases (starts_with (codes "name=") x.string)) [
      | inl e ↦
          returns (find_name dup mac (suc n) tokens)
            (if dup then parsed (Payload.device_found mac (drop 5 x.string)) else failed enomem)
            (rw (find_name, x.taken, e))
      | inr e ↦
          by_equation (find_name dup mac (suc n) tokens) (find_name dup mac n x.rest)
            (rw (find_name, x.taken, e)) (find_name-Returns dup mac n x.rest x.left)
    ]

found_device-Returns :
    (dup : Bool) (n : ℕ) (m : Option Bytes) (rest : Bytes)
    → skip_strings n rest ≡ some []
    → Returns (found_device dup n m rest)
unfolding found_device
found_device-Returns dup n none rest h = returns (found_device dup n none rest) (failed einval) refl
found_device-Returns dup n (some mac) rest h = find_name-Returns dup mac n rest h

pub parse_p2p_device_found-Returns :
    (dup : Bool) (tokens : Bytes) (num : ℕ)
    → skip_strings num tokens ≡ some []
    → Returns (parse_p2p_device_found dup tokens num)
unfolding parse_p2p_device_found
parse_p2p_device_found-Returns dup tokens zero h =
    returns (parse_p2p_device_found dup tokens 0) (failed einval) refl
parse_p2p_device_found-Returns dup tokens (suc n) h = elim (Bool-cases (ltb (suc n) 2)) [
  | inl e ↦ returns (parse_p2p_device_found dup tokens (suc n)) (failed einval) (rw e)
  | inr e ↦
      let x = next_string_lem n tokens h in
      let r = parse_mac_lem x.string in
      let m : suc n - 1 ≡ n = omega arith in
      by_equation (parse_p2p_device_found dup tokens (suc n)) (found_device dup n r.mac x.rest)
        (rw (e, x.taken, r.read, m)) (found_device-Returns dup n r.mac x.rest x.left)
]

pub go_neg_loop-Returns :
    (n : ℕ) (role : Option Role) (peer : Option Bytes) (tokens : Bytes)
    → skip_strings n tokens ≡ some []
    → Returns (go_neg_loop n role peer tokens)
unfolding go_neg_loop
go_neg_loop-Returns zero role peer tokens h =
    returns (go_neg_loop 0 role peer tokens) (go_neg_end role peer) refl
go_neg_loop-Returns (suc n) role peer tokens h =
    let x = next_string_lem n tokens h in
    let o = go_neg_loop (suc n) role peer tokens in
    elim (Bool-cases (starts_with (codes "role=") x.string)) [
      | inl e ↦ elim (Option-cases (parse_role (drop 5 x.string))) [
        | inl p ↦ returns o (failed einval) (rw (go_neg_loop, x.taken, e, p))
        | inr (r, p) ↦
            by_equation o (go_neg_loop n (some r) peer x.rest) (rw (go_neg_loop, x.taken, e, p))
              (go_neg_loop-Returns n (some r) peer x.rest x.left)
      ]
      | inr e ↦ elim (Bool-cases (starts_with (codes "peer_dev=") x.string)) [
        | inl q ↦
            let r = parse_mac_lem (drop 9 x.string) in
            elim (Option-cases r.mac) [
              | inl p ↦ returns o (failed einval) (rw (go_neg_loop, x.taken, e, q, r.read, p))
              | inr (m, p) ↦
                  by_equation o (go_neg_loop n role (some m) x.rest)
                    (rw (go_neg_loop, x.taken, e, q, r.read, p))
                    (go_neg_loop-Returns n role (some m) x.rest x.left)
            ]
        | inr q ↦
            by_equation o (go_neg_loop n role peer x.rest) (rw (go_neg_loop, x.taken, e, q))
              (go_neg_loop-Returns n role peer x.rest x.left)
      ]
    ]
