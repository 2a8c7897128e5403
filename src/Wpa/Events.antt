-- ===== src/Wpa/Events.antt =====
-- The table of event names of src/wpa_parser.c, its search and the types of src/wpa.h.
pub mod Order
pub mod Name
use openwfd.Common.{
  ℕ, zero, suc, ◌+◌, ◌-◌, ◌*◌, ◌/◌, ◌%◌, ◌^◌, ◌≤◌, ◌<◌, min, ◌≡◌, refl, sym, ap, ◌∙◌, ◌≢◌, ◌↔◌, ◌⊎◌,
  inl, inr, Bool, true, false, not, ◌&&◌, ◌||◌, Option, none, some, List, [], ◌∷◌, ◌++◌, append-nil,
  append_assoc, arith, ltb, leb, ◌==◌, if◌then◌else◌, Bool-cases, Option-cases, ltb→lt, ltb→ge,
  lt→ltb, ge→ltb, leb→le, leb→gt, le→leb, lt→leb, ==_iff, ==_refl,
}
use Prim.Native.Nat.{Ordering, compare}
use Prim.Native.Nat.Ordering.{lt, eq, gt}
use openwfd.Common.{length, drop}
use Prim.Native.String.{String}
use openwfd.Common.Memory.{Bytes, ◌>>=◌}
use openwfd.Common.Text.{codes}
use openwfd.Wpa.Search.{bsearch}

-- `enum owfd_wpa_event_type`
pub data Kind : Type 0 where
  unknown ap_sta_connected ap_sta_disconnected p2p_device_found p2p_find_stopped p2p_go_neg_request
        p2p_go_neg_success p2p_go_neg_failure p2p_group_formation_success
        p2p_group_formation_failure p2p_group_started p2p_group_removed p2p_prov_disc_show_pin
        p2p_prov_disc_enter_pin p2p_prov_disc_pbc_req p2p_prov_disc_pbc_resp p2p_serv_disc_req
        p2p_serv_disc_resp p2p_invitation_received p2p_invitation_result :
      Kind

-- The value of an enumerator.
abbrev pub number : Kind → ℕ
number unknown = 0
number ap_sta_connected = 1
number ap_sta_disconnected = 2
number p2p_device_found = 3
number p2p_find_stopped = 4
number p2p_go_neg_request = 5
number p2p_go_neg_success = 6
number p2p_go_neg_failure = 7
number p2p_group_formation_success = 8
number p2p_group_formation_failure = 9
number p2p_group_started = 10
number p2p_group_removed = 11
number p2p_prov_disc_show_pin = 12
number p2p_prov_disc_enter_pin = 13
number p2p_prov_disc_pbc_req = 14
number p2p_prov_disc_pbc_resp = 15
number p2p_serv_disc_req = 16
number p2p_serv_disc_resp = 17
number p2p_invitation_received = 18
number p2p_invitation_result = 19

-- `struct event_type`. Its `len` is the length of the name.
pub record EventType : Type 0 where
  pub name : Bytes
  pub code : Kind

abbrev event : String → Kind → EventType
event s k = record { name = codes s; code = k }

-- `event_list`
abbrev pub event_list : List EventType
event_list =
    event "AP-STA-CONNECTED" ap_sta_connected
    ∷ event "AP-STA-DISCONNECTED" ap_sta_disconnected
    ∷ event "P2P-DEVICE-FOUND" p2p_device_found
    ∷ event "P2P-FIND-STOPPED" p2p_find_stopped
    ∷ event "P2P-GO-NEG-FAILURE" p2p_go_neg_failure
    ∷ event "P2P-GO-NEG-REQUEST" p2p_go_neg_request
    ∷ event "P2P-GO-NEG-SUCCESS" p2p_go_neg_success
    ∷ event "P2P-GROUP-FORMATION-FAILURE" p2p_group_formation_failure
    ∷ event "P2P-GROUP-FORMATION-SUCCESS" p2p_group_formation_success
    ∷ event "P2P-GROUP-REMOVED" p2p_group_removed
    ∷ event "P2P-GROUP-STARTED" p2p_group_started
    ∷ event "P2P-INVITATION-RECEIVED" p2p_invitation_received
    ∷ event "P2P-INVITATION-RESULT" p2p_invitation_result
    ∷ event "P2P-PROV-DISC-ENTER-PIN" p2p_prov_disc_enter_pin
    ∷ event "P2P-PROV-DISC-PBC-REQ" p2p_prov_disc_pbc_req
    ∷ event "P2P-PROV-DISC-PBC-RESP" p2p_prov_disc_pbc_resp
    ∷ event "P2P-PROV-DISC-SHOW-PIN" p2p_prov_disc_show_pin
    ∷ event "P2P-SERV-DISC-REQ" p2p_serv_disc_req
    ∷ event "P2P-SERV-DISC-RESP" p2p_serv_disc_resp
    ∷ []

-- `strncmp(k, name, strlen(name))`, by its sign.
unfoldable pub strncmp : Bytes → Bytes → Ordering
strncmp k [] = eq
strncmp [] (n ∷ ns) = lt
strncmp (c ∷ cs) (n ∷ ns) =
    let rest = strncmp cs ns in elim (compare c n) [ lt ↦ lt | eq ↦ rest | gt ↦ gt ]

-- The test of `event_comp` on the byte behind the name.
abbrev pub word_end : Bytes → Ordering
word_end [] = eq
word_end (c ∷ cs) = if c == b' ' then eq else gt

-- `event_comp`
unfoldable pub event_comp : Bytes → Bytes → Ordering
event_comp k name = elim (strncmp k name) [
  | lt ↦ lt
  | eq ↦ word_end (drop (length name) k)
  | gt ↦ gt
]

abbrev pub entry : List EventType → ℕ → Option EventType
entry [] i = none
entry (t ∷ ts) zero = some t
entry (t ∷ ts) (suc i) = entry ts i

abbrev pub name_of : List EventType → ℕ → Bytes
name_of [] i = []
name_of (t ∷ ts) zero = t.name
name_of (t ∷ ts) (suc i) = name_of ts i

-- The call of `bsearch` in `owfd_wpa_event_parse`.
unfoldable pub lookup : Bytes → Option EventType
lookup t =
    bsearch (length event_list) (λ i. event_comp t (name_of event_list i)) 0 (length event_list)
    >>= entry event_list

-- `owfd_wpa_event_name`
unfoldable pub name_in : List EventType → ℕ → Bytes
name_in [] type = codes "UNKNOWN"
name_in (t ∷ ts) type = if number t.code == type then t.name else name_in ts type

abbrev pub event_name : ℕ → Bytes
event_name type = name_in event_list type
