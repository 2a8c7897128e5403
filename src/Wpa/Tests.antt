-- ===== src/Wpa/Tests.antt =====
-- Runs of the event parser of src/wpa_parser.c, most on inputs of test/test_wpa.c.
use openwfd.Common.{true, Option, some, [], ◌≡◌, refl, arith}
use openwfd.Common.Memory.{Status, ok, fail, einval, Bytes}
use openwfd.Common.Text.{codes, strtoul}
use openwfd.Wpa.Events
use openwfd.Wpa.Search.{bsearch}
use openwfd.Wpa.Events.{event_list, event_comp, strncmp, lookup, number, event_name, name_in}
use openwfd.Wpa.Events.Order.{word, Looked, lookup_lem}
use openwfd.Wpa.Events.Name.{event_name-lookup}
use openwfd.Wpa.Tokenizer.{tokenize, read_char}
use openwfd.Wpa.Tokenizer.Bounds.{is_string, Tokens, wpa_tokenize_lem}
use openwfd.Wpa.Payload.{Payload, parse_payload, find_name}
use openwfd.Wpa.Event.{WpaEvent, zero_event, Answers, event_parse, parse_args}
use openwfd.Wpa.Event.Outcome.{Outcome}

abbrev plenty : Answers
plenty = record { raw = true; tokens = some (λ _. 0); field = true }

unfoldable run : Bytes → Option (Status × WpaEvent)
unfolding event_parse lookup bsearch event_comp strncmp parse_args tokenize read_char parse_payload
    find_name strtoul
run event = event_parse plenty zero_event event

abbrev mac : Bytes
mac = codes "00:00:00:00:00:00"

abbrev found : Bytes
found = codes "<4>P2P-DEVICE-FOUND 00:00:00:00:00:00 name=some-name"

abbrev found_event : WpaEvent
found_event = record {
  type = Events.p2p_device_found;
  priority = 4;
  raw = some (codes "00:00:00:00:00:00 name=some-name");
  payload = Payload.device_found mac (codes "some-name");
}

device_found-run : run found ≡ some (ok, found_event)
unfolding run
device_found-run = refl

-- A priority written with a sign is accepted, and one from 2^32 on wraps.
plus_priority :
    run (codes "<+3>P2P-FIND-STOPPED")
    ≡ some (ok, record zero_event { type = Events.p2p_find_stopped; priority = 3; raw = some [] })
unfolding run
plus_priority = refl

wrapped_priority :
    run (codes "<4294967299>P2P-FIND-STOPPED")
    ≡ some (ok, record zero_event { type = Events.p2p_find_stopped; priority = 3; raw = some [] })
unfolding run
wrapped_priority = refl

no_name : run (codes "P2P-DEVICE-FOUND 00:00:00:00:00:00 x") ≡ some (fail einval, zero_event)
unfolding run
no_name = refl

lookup_lem_example : Looked (word found) event_list (lookup found)
lookup_lem_example = lookup_lem found

abbrev stopped : Bytes
stopped = codes "P2P-FIND-STOPPED x"

event_name-lookup_example : event_name (number Events.p2p_find_stopped) ≡ word stopped
unfolding lookup bsearch event_comp strncmp
event_name-lookup_example =
    event_name-lookup stopped
      (record { name = codes "P2P-FIND-STOPPED"; code = Events.p2p_find_stopped }) refl

abbrev quoted : Bytes
quoted = codes "a 'b \\' c' ''  d"

wpa_tokenize_lem_example : Tokens quoted (tokenize (some (λ _. 0)) quoted)
unfolding is_string
wpa_tokenize_lem_example = wpa_tokenize_lem (λ _. 0) quoted refl (omega arith)
