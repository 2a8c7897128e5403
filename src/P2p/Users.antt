-- ===== src/P2p/Users.antt =====
-- The users of events of src/p2pd_interface.c: `owfd_p2pd_interface_register_event_fn`, `_unregister_event_fn` and
-- `wpa_event`. The list of users is what the doubly linked list at `event_users` stands for.
pub mod Unlinked
use openwfd.Common.{
  ℕ, zero, suc, ◌+◌, ◌-◌, ◌*◌, ◌/◌, ◌%◌, ◌^◌, ◌≤◌, ◌<◌, min, ◌≡◌, refl, sym, ap, ◌∙◌, ◌≢◌, ◌↔◌, ◌⊎◌,
  inl, inr, Bool, true, false, not, ◌&&◌, ◌||◌, Option, none, some, List, [], ◌∷◌, ◌++◌, append-nil,
  append_assoc, arith, ltb, leb, ◌==◌, if◌then◌else◌, Bool-cases, Option-cases, ltb→lt, ltb→ge,
  lt→ltb, ge→ltb, leb→le, leb→gt, le→leb, lt→leb, ==_iff, ==_refl,
}
use openwfd.Common.Memory.{Status, ok, fail, Errno, enomem, Bytes, ◌>>=◌}
use openwfd.Wpa.Event.{WpaEvent, zero_event, Answers, event_parse}
use openwfd.Wpa.Events.{Kind, unknown, number}

-- `struct event_user`; both are pointers, `event_fn` is 0 for NULL.
pub record User : Type 0 where
  pub event_fn : ℕ
  pub user_data : ℕ

-- `owfd_p2pd_interface_register_event_fn`, with what `calloc` answers
unfoldable pub register : Bool → ℕ → ℕ → List User → Status × List User
register false fn d us = (fail enomem, us)
register true fn d us = (ok, (record { event_fn = fn; user_data = d }) ∷ us)

abbrev pub is_user : ℕ → ℕ → User → Bool
is_user fn d u = u.event_fn == fn && u.user_data == d

-- `owfd_p2pd_interface_unregister_event_fn`
unfoldable pub unregister : ℕ → ℕ → List User → List User
unregister fn d [] = []
unregister fn d (u ∷ us) = let rest = unregister fn d us in if is_user fn d u then us else u ∷ rest

-- The users that the loop of `wpa_event` calls, in order, where they leave the list as it is.
unfoldable pub called : List User → List User
called [] = []
called (u ∷ us) = if u.event_fn == 0 then called us else u ∷ called us

-- The calls that `wpa_event` makes for an event that has been parsed: with this event, for each user.
abbrev pub calls_for : List User → Status × WpaEvent → List (User × WpaEvent)
calls_for us (fail e, ev) = []
calls_for us (ok, ev) = if number ev.type == number unknown then [] else with_event (called us) ev
  where
    with_event : List User → WpaEvent → List (User × WpaEvent)
    with_event [] ev = []
    with_event (u ∷ us) ev = (u, ev) ∷ with_event us ev

-- `wpa_event`; `none` is an access out of bounds
unfoldable pub wpa_event : Answers → Bytes → List User → Option (List (User × WpaEvent))
unfolding event_parse called
wpa_event a buf us = event_parse a zero_event buf >>= (λ x. some (calls_for us x))
