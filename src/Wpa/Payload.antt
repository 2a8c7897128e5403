-- ===== src/Wpa/Payload.antt =====
-- The payloads of events: `parse_mac` and the parse functions of src/wpa_parser.c over the buffer
-- of tokens. The outer `none` is a read behind that buffer, or a write behind the one of a MAC.
pub mod Found
pub mod Safe
use openwfd.Common.{
  ℕ, zero, suc, ◌+◌, ◌-◌, ◌*◌, ◌/◌, ◌%◌, ◌^◌, ◌≤◌, ◌<◌, min, ◌≡◌, refl, sym, ap, ◌∙◌, ◌≢◌, ◌↔◌, ◌⊎◌,
  inl, inr, Bool, true, false, not, ◌&&◌, ◌||◌, Option, none, some, List, [], ◌∷◌, ◌++◌, append-nil,
  append_assoc, arith, ltb, leb, ◌==◌, if◌then◌else◌, Bool-cases, Option-cases, ltb→lt, ltb→ge,
  lt→ltb, ge→ltb, leb→le, leb→gt, le→leb, lt→leb, ==_iff, ==_refl,
}
use openwfd.Common.{length, drop}
use openwfd.Common.Memory.{Bytes, Errno, einval, enomem, ◌>>=◌}
use openwfd.Common.Text.{codes, starts_with, skip_spaces, is_digit}
use openwfd.Common.Strings.{next_string}
use openwfd.Wpa.Events
use openwfd.Wpa.Events.{Kind}

-- `enum owfd_wpa_event_role`
pub data Role : Type 0 where
  go client : Role

-- `union owfd_wpa_event_payload`, with what each of its structures holds; `blank` is all zeros.
pub data Payload : Type 0 where
  blank : Payload
  sta_connected sta_disconnected : Bytes → Payload
  device_found : Bytes → Bytes → Payload
  go_neg_success : Bytes → Role → Payload
  group_started : Bytes → Role → Bytes → Payload
  show_pin : Bytes → Bytes → Payload
  enter_pin pbc_req pbc_resp : Bytes → Payload

-- What a parse function returns, with the payload that it leaves.
pub data Parsed : Type 0 where
  parsed : Payload → Parsed
  failed : Errno → Parsed

-- `%2x` of `sscanf`, as far as the input that it takes.
abbrev is_hex : ℕ → Bool
is_hex c = is_digit c || (leb b'a' c && leb c b'f') || (leb b'A' c && leb c b'F')

abbrev hex_digit : Bytes → Option Bytes
hex_digit [] = none
hex_digit (c ∷ cs) = if is_hex c then some cs else none

abbrev hex_more : ℕ → Bytes → Bytes
hex_more c [] = []
hex_more c (d ∷ ds) = if is_hex d || (c == b'0' && (d == b'x' || d == b'X')) then ds else d ∷ ds

unfoldable hex_from : Bytes → Option Bytes
hex_from [] = none
hex_from (c ∷ cs) =
    if c == b'+' || c == b'-' then hex_digit cs else if is_hex c then some (hex_more c cs) else none

abbrev read_hex : Bytes → Option Bytes
read_hex s = hex_from (skip_spaces s)

abbrev colon : Bytes → Option Bytes
colon [] = none
colon (c ∷ cs) = if c == b':' then some cs else none

-- `sscanf(src, "%2x:%2x:%2x:%2x:%2x:%2x", ...) == 6`
unfoldable pub scans_mac : Bytes → Bool
unfolding hex_from skip_spaces
scans_mac src =
    let r =
      read_hex src
      >>= colon
      >>= read_hex
      >>= colon
      >>= read_hex
      >>= colon
      >>= read_hex
      >>= colon
      >>= read_hex
      >>= colon
      >>= read_hex in
    elim r [ none ↦ false | some _ ↦ true ]

-- `strcpy` of a string into a buffer of `cap` bytes: with its zero it has to fit, or the result is a fault.
unfoldable pub strcpy : ℕ → Bytes → Option Bytes
strcpy cap src = if ltb (length src) cap then some src else none

-- `OWFD_WPA_EVENT_MAC_STRLEN`, the size of the buffers for a MAC.
abbrev pub mac_size : ℕ
mac_size = 18

-- `parse_mac`: the buffer gets the string, or the result is -EINVAL, the inner `none`. The outer `none` is
-- a write behind the buffer.
unfoldable pub parse_mac : Bytes → Option (Option Bytes)
unfolding scans_mac strcpy
parse_mac src =
    if ltb 17 (length src)
    then some none
    else if scans_mac src
    then strcpy mac_size src >>= (λ m. some (some m))
    else some none

-- `!strcmp(s, t)`
unfoldable pub same_string : Bytes → Bytes → Bool
same_string [] [] = true
same_string [] (d ∷ ds) = false
same_string (c ∷ cs) [] = false
same_string (c ∷ cs) (d ∷ ds) = c == d && same_string cs ds

-- The tests of a role that two functions make.
unfoldable pub parse_role : Bytes → Option Role
unfolding same_string
parse_role s =
    if same_string s (codes "GO")
    then some go
    else if same_string s (codes "client")
    then some client
    else none

abbrev pub with_mac : (Bytes → Payload) → Option Bytes → Parsed
with_mac f none = failed einval
with_mac f (some m) = parsed (f m)

-- The functions that want one token, a MAC: `parse_ap_sta_connected`, `parse_ap_sta_disconnected`,
-- `parse_p2p_prov_disc_enter_pin`, `..._pbc_req` and `..._pbc_resp`.
unfoldable pub parse_one_mac : (Bytes → Payload) → Bytes → ℕ → Option Parsed
unfolding next_string parse_mac
parse_one_mac f tokens num =
    if ltb num 1
    then some (failed einval)
    else do (s, rest) ← next_string tokens; m ← parse_mac s; some (with_mac f m)

-- The loop of `parse_p2p_device_found`; `dup` tells whether `strdup` has memory.
unfoldable pub find_name : Bool → Bytes → ℕ → Bytes → Option Parsed
unfolding next_string starts_with
find_name dup mac zero tokens = some (failed einval)
find_name dup mac (suc n) tokens = elim (next_string tokens) [
  | none ↦ none
  | some (s, rest) ↦ elim (starts_with (codes "name=") s) [
    | true ↦ some (if dup then parsed (device_found mac (drop 5 s)) else failed enomem)
    | false ↦ find_name dup mac n rest
  ]
]

unfoldable pub found_device : Bool → ℕ → Option Bytes → Bytes → Option Parsed
found_device dup n none rest = some (failed einval)
found_device dup n (some mac) rest = find_name dup mac n rest

unfoldable pub parse_p2p_device_found : Bool → Bytes → ℕ → Option Parsed
unfolding next_string parse_mac found_device
parse_p2p_device_found dup tokens num =
    if ltb num 2
    then some (failed einval)
    else do (s, rest) ← next_string tokens; m ← parse_mac s; found_device dup (num - 1) m rest

-- The loop of `parse_p2p_go_neg_success`, with what has been read of role and peer.
abbrev pub go_neg_end : Option Role → Option Bytes → Parsed
go_neg_end none peer = failed einval
go_neg_end (some r) none = failed einval
go_neg_end (some r) (some m) = parsed (go_neg_success m r)

unfoldable pub go_neg_loop : ℕ → Option Role → Option Bytes → Bytes → Option Parsed
unfolding next_string starts_with parse_role parse_mac
go_neg_loop zero role peer tokens = some (go_neg_end role peer)
go_neg_loop (suc n) role peer tokens = elim (next_string tokens) [
  | none ↦ none
  | some (s, rest) ↦ elim (starts_with (codes "role=") s) [
    | true ↦ elim (parse_role (drop 5 s)) [
      | none ↦ some (failed einval)
      | some r ↦ go_neg_loop n (some r) peer rest
    ]
    | false ↦ elim (starts_with (codes "peer_dev=") s) [
      | true ↦ elim (parse_mac (drop 9 s)) [
        | none ↦ none
        | some r ↦ elim r [
          | none ↦ some (failed einval)
          | some m ↦ go_neg_loop n role (some m) rest
        ]
      ]
      | false ↦ go_neg_loop n role peer rest
    ]
  ]
]

unfoldable pub parse_p2p_go_neg_success : Bytes → ℕ → Option Parsed
unfolding go_neg_loop
parse_p2p_go_neg_success tokens num =
    if ltb num 2 then some (failed einval) else go_neg_loop num none none tokens

-- The loop of `parse_p2p_group_started`.
unfoldable pub find_go_mac : Bytes → Role → ℕ → Bytes → Option Parsed
unfolding next_string starts_with parse_mac
find_go_mac ifname role zero tokens = some (failed einval)
find_go_mac ifname role (suc n) tokens = elim (next_string tokens) [
  | none ↦ none
  | some (s, rest) ↦ elim (starts_with (codes "go_dev_addr=") s) [
    | true ↦ parse_mac (drop 12 s) >>= (λ r. some (with_mac (λ m. group_started m role ifname) r))
    | false ↦ find_go_mac ifname role n rest
  ]
]

unfoldable pub group_role : Bytes → ℕ → Option Role → Bytes → Option Parsed
group_role ifname n none rest = some (failed einval)
group_role ifname n (some r) rest = find_go_mac ifname r n rest

unfoldable pub group_named : Bool → ℕ → Bytes → Bytes → Option Parsed
unfolding next_string parse_role group_role
group_named false n ifname rest = some (failed enomem)
group_named true n ifname rest = do
  (s, rest') ← next_string rest
  group_role ifname n (parse_role s) rest'

unfoldable pub parse_p2p_group_started : Bool → Bytes → ℕ → Option Parsed
unfolding next_string group_named
parse_p2p_group_started dup tokens num =
    if ltb num 3
    then some (failed einval)
    else do (ifname, rest) ← next_string tokens; group_named dup (num - 2) ifname rest

-- `parse_p2p_prov_disc_show_pin`
unfoldable pub pin_of : Bool → Option Bytes → Bytes → Option Parsed
unfolding next_string
pin_of dup none rest = some (failed einval)
pin_of dup (some mac) rest = do
  (pin, _) ← next_string rest
  some (if dup then parsed (show_pin mac pin) else failed enomem)

unfoldable pub parse_p2p_prov_disc_show_pin : Bool → Bytes → ℕ → Option Parsed
unfolding next_string parse_mac pin_of
parse_p2p_prov_disc_show_pin dup tokens num =
    if ltb num 2
    then some (failed einval)
    else do (s, rest) ← next_string tokens; m ← parse_mac s; pin_of dup m rest

-- The `switch` of `owfd_wpa_event_parse`.
unfoldable pub parse_payload : Kind → Bool → Bytes → ℕ → Option Parsed
unfolding parse_one_mac parse_p2p_device_found parse_p2p_go_neg_success parse_p2p_group_started
    parse_p2p_prov_disc_show_pin
parse_payload Events.ap_sta_connected dup tokens num = parse_one_mac sta_connected tokens num
parse_payload Events.ap_sta_disconnected dup tokens num = parse_one_mac sta_disconnected tokens num
parse_payload Events.p2p_device_found dup tokens num = parse_p2p_device_found dup tokens num
parse_payload Events.p2p_go_neg_success dup tokens num = parse_p2p_go_neg_success tokens num
parse_payload Events.p2p_group_started dup tokens num = parse_p2p_group_started dup tokens num
parse_payload Events.p2p_prov_disc_show_pin dup tokens num =
    parse_p2p_prov_disc_show_pin dup tokens num
parse_payload Events.p2p_prov_disc_enter_pin dup tokens num = parse_one_mac enter_pin tokens num
parse_payload Events.p2p_prov_disc_pbc_req dup tokens num = parse_one_mac pbc_req tokens num
parse_payload Events.p2p_prov_disc_pbc_resp dup tokens num = parse_one_mac pbc_resp tokens num
parse_payload _ dup tokens num = some (parsed blank)
