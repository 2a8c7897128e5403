-- ===== src/Wpa/Ctrl/Socket/Restore.antt =====
-- What `open_socket` of src/wpa_ctrl.c leaves behind, and that `close_socket` takes it back.
use openwfd.Common.{
  ℕ, ◌≡◌, refl, ap, ◌∙◌, inl, inr, true, false, Option, none, some, List, ◌∷◌, arith, Bool-cases,
}
use openwfd.Common.Memory.{Status, ok, fail, Errno, Bytes}
use openwfd.Common.World.{
  Made, made, make_failed, World, add_fd, close_fd, unlink, remove, remove_first, same_bytes,
  Restored, Behind, restored,
}
use openwfd.Wpa.Ctrl.Socket.{
  SocketAnswers, bound, bind_again, is_in_use, bind_socket, Opened, open_connected, open_bound,
  open_made, open_socket, close_socket,
}

unlink_lem :
    (name : Bytes) (w : World) (m : Bytes) → (unlink name none w).names m ≡ true → w.names m ≡ true
unlink_lem name w m h = ground (arith, h)

unlink-Restored : (name : Bytes) (u : Option Errno) (w : World) → Restored (unlink name u w) w
unlink-Restored name none w = record {
  same_fds = refl;
  same_watched = refl;
  same_timer = refl;
  no_new_names = unlink_lem name w;
}
unlink-Restored name (some e) w = restored w

bound_names :
    (name : Bytes) (w : World) (m : Bytes)
    → (bound name w).names m ≡ true
    → same_bytes m name ≡ false
    → w.names m ≡ true
bound_names name w m h n = ground (arith, h, n)

bound-Behind : (name : Bytes) (w : World) → Behind w.fds w.watched name (bound name w) w
bound-Behind name w = record {
  now_fds = refl;
  now_watched = refl;
  now_timer = refl;
  one_name = bound_names name w;
}

-- What `bind_socket` leaves behind.
abbrev Bound : Bytes → Status × World → World → Type 0
Bound name (ok, v) w = Behind w.fds w.watched name v w
Bound name (fail e, v) w = Restored v w

add_name_lem :
    (name : Bytes) (v : World) (w : World) (m : Bytes)
    → Restored v w
    → (bound name v).names m ≡ true
    → same_bytes m name ≡ false
    → w.names m ≡ true
add_name_lem name v w m r h n = r.no_new_names m (bound_names name v m h n)

Restored-Bound :
    (name : Bytes) (v w : World) → Restored v w → Behind w.fds w.watched name (bound name v) w
Restored-Bound name v w r = record {
  now_fds = r.same_fds;
  now_watched = r.same_watched;
  now_timer = r.same_timer;
  one_name = λ m h n. add_name_lem name v w m r h n;
}

bind_again-Bound :
    (name : Bytes) (old again : Option Errno) (w : World)
    → Bound name (bind_again name old again w) w
bind_again-Bound name old none w =
    Restored-Bound name (unlink name old w) w (unlink-Restored name old w)
bind_again-Bound name old (some e) w = unlink-Restored name old w

bind_socket-Bound :
    (name : Bytes) (first old again : Option Errno) (w : World)
    → Bound name (bind_socket name first old again w) w
unfolding bind_socket
bind_socket-Bound name none old again w = bound-Behind name w
bind_socket-Bound name (some e) old again w = elim (Bool-cases (is_in_use e)) [
  | inl h ↦ rw h (bind_again-Bound name old again w)
  | inr h ↦ rw h (restored w)
]

-- What `open_socket` leaves behind: everything as before, or one descriptor more.
abbrev pub Left : Made → Bytes → World → World → Type 0
Left (make_failed e) name v w = Restored v w
Left (made fd) name v w = Behind (fd ∷ w.fds) (fd ∷ w.watched) name v w

abbrev pub Socketed : Opened → World → Type 0
Socketed o w = Left o.result o.name o.world w

close_Restored :
    (fd : ℕ) (v w : World) → Restored v (add_fd fd w) → Restored (close_fd (some fd) v) w
close_Restored fd v w r = record {
  same_fds = ap (remove fd) r.same_fds ∙ remove_first fd w.fds;
  same_watched = r.same_watched;
  same_timer = r.same_timer;
  no_new_names = r.no_new_names;
}

same_split :
    (name : Bytes) (v w : World) (m : Bytes)
    → ((n : Bytes) → v.names n ≡ true → same_bytes n name ≡ false → w.names n ≡ true)
    → (unlink name none v).names m ≡ true
    → w.names m ≡ true
same_split name v w m k h = elim (Bool-cases (same_bytes m name)) [
  | inl e ↦ absurd (ground (arith, e, h))
  | inr e ↦ k m (unlink_lem name v m h) e
]

unlink-Behind :
    (fds watched : List ℕ) (name : Bytes) (v w : World)
    → Behind fds watched name v w
    → fds ≡ w.fds
    → watched ≡ w.watched
    → Restored (unlink name none v) w
unlink-Behind fds watched name v w b p q = record {
  same_fds = b.now_fds ∙ p;
  same_watched = b.now_watched ∙ q;
  same_timer = b.now_timer;
  no_new_names = λ m h. same_split name v w m b.one_name h;
}

err_name-Restored :
    (fd : ℕ) (name : Bytes) (v w : World)
    → Behind (fd ∷ w.fds) w.watched name v (add_fd fd w)
    → Restored (close_fd (some fd) (unlink name none v)) w
err_name-Restored fd name v w b =
    close_Restored fd (unlink name none v) w
      (unlink-Behind (fd ∷ w.fds) w.watched name v (add_fd fd w) b refl refl)

open_connected-Socketed :
    (fd : ℕ) (name : Bytes) (s : Status) (add : Option Errno) (v w : World)
    → Behind (fd ∷ w.fds) w.watched name v (add_fd fd w)
    → Socketed (open_connected fd name s add none v) w
open_connected-Socketed fd name (fail e) add v w b = err_name-Restored fd name v w b
open_connected-Socketed fd name ok (some e) v w b = err_name-Restored fd name v w b
open_connected-Socketed fd name ok none v w b = record {
  now_fds = b.now_fds;
  now_watched = ap (λ l. fd ∷ l) b.now_watched;
  now_timer = b.now_timer;
  one_name = b.one_name;
}

open_bound-Socketed :
    (fd : ℕ) (name : Bytes) (s : Status) (add : Option Errno) (x : Status × World) (w : World)
    → Bound name x (add_fd fd w)
    → Socketed (open_bound fd name s add none x) w
open_bound-Socketed fd name s add (ok, v) w b = open_connected-Socketed fd name s add v w b
open_bound-Socketed fd name s add (fail e, v) w b = close_Restored fd v w b

open_made-Socketed :
    (path old : Bytes) (a : SocketAnswers) (w : World) (m : Made)
    → a.unlink_name ≡ none
    → Socketed (open_made path old a w m) w
unfolding open_made
open_made-Socketed path old a w (make_failed e) u = restored w
open_made-Socketed path old a w (made fd) u = rw u (
    open_bound-Socketed fd (a.name w.counter) _ a.add _ w
      (bind_socket-Bound (a.name w.counter) a.bind a.unlink_old a.bind_again (add_fd fd w)))

pub open_socket-Socketed :
    (path old : Bytes) (a : SocketAnswers) (w : World)
    → a.unlink_name ≡ none
    → Socketed (open_socket path old a w) w
unfolding open_socket
open_socket-Socketed path old a w u = open_made-Socketed path old a w a.socket u

pub close_socket-Restored :
    (fd : ℕ) (name : Bytes) (v w : World)
    → Behind (fd ∷ w.fds) (fd ∷ w.watched) name v w
    → Restored (close_socket (some fd) name none v) w
unfolding close_socket
close_socket-Restored fd name v w b = record {
  same_fds = ap (remove fd) b.now_fds ∙ remove_first fd w.fds;
  same_watched = ap (remove fd) b.now_watched ∙ remove_first fd w.watched;
  same_timer = b.now_timer;
  no_new_names = λ m h. same_split name v w m b.one_name h;
}
