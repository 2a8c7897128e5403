-- ===== src/Common/World.antt =====
-- What the kernel keeps for a channel: open descriptors, the descriptors that an epoll set watches,
-- the socket files, the timer; beside them the counter that src/wpa_ctrl.c keeps for its file names.
-- A call's answer comes with the model's arguments: `none` is success, `some` an errno.
use Prim.Native.Nat.{ℕ}
use mathlib.Core.Path.{◌≡◌, refl, ◌∙◌}
use mathlib.Core.Bool.{Bool, true, false, not, ◌&&◌, ◌||◌}
use mathlib.Core.Option.{Option, none, some}
use mathlib.Core.List.{List, [], ◌∷◌}
use openwfd.Common.Tests.{◌==◌, if◌then◌else◌, ==_refl}
use openwfd.Common.Memory.{Bytes, Status, ok, fail, Errno}
use openwfd.Common.Time.{Timespec}

-- What a call that makes a descriptor answers.
pub data Made : Type 0 where
  made : ℕ → Made
  make_failed : Errno → Made

pub record World : Type 0 where
  pub fds : List ℕ
  pub watched : List ℕ
  pub names : Bytes → Bool
  pub timer : Timespec
  pub counter : ℕ

abbrev pub same_bytes : Bytes → Bytes → Bool
same_bytes [] [] = true
same_bytes (x ∷ xs) (y ∷ ys) = x == y && same_bytes xs ys
same_bytes _ _ = false

-- A list without the first entry that is `n`.
abbrev pub remove : ℕ → List ℕ → List ℕ
remove n [] = []
remove n (m ∷ ms) = if n == m then ms else m ∷ remove n ms

-- What the calls do when they succeed; -1 stands for no descriptor.
abbrev pub add_fd : ℕ → World → World
add_fd fd w = record w { fds = fd ∷ w.fds }

abbrev pub close_fd : Option ℕ → World → World
close_fd none w = w
close_fd (some fd) w = record w { fds = remove fd w.fds }

abbrev pub watch : ℕ → World → World
watch fd w = record w { watched = fd ∷ w.watched }

abbrev pub unwatch : Option ℕ → World → World
unwatch none w = w
unwatch (some fd) w = record w { watched = remove fd w.watched }

abbrev pub add_name : Bytes → World → World
add_name n w = record w { names = λ m. same_bytes m n || w.names m }

-- The last call comes with its answer, since the source goes on behind a failure.
abbrev pub unlink : Bytes → Option Errno → World → World
unlink n none w = record w { names = λ m. not (same_bytes m n) && w.names m }
unlink n (some e) w = w

abbrev pub status_of : Option Errno → Status
status_of none = ok
status_of (some e) = fail e

pub remove_first : (n : ℕ) (ms : List ℕ) → remove n (n ∷ ms) ≡ ms
remove_first n ms = rw (==_refl n)

-- Two states of the kernel that differ at most in socket files that are gone, and in the counter.
pub record Restored (v w : World) : Type 0 where
  pub same_fds : v.fds ≡ w.fds
  pub same_watched : v.watched ≡ w.watched
  pub same_timer : v.timer ≡ w.timer
  pub no_new_names : (m : Bytes) → v.names m ≡ true → w.names m ≡ true

-- The first state has these open and watched descriptors, the timer of the second, and at most one
-- socket file more.
pub record Behind (fds watched : List ℕ) (name : Bytes) (v w : World) : Type 0 where
  pub now_fds : v.fds ≡ fds
  pub now_watched : v.watched ≡ watched
  pub now_timer : v.timer ≡ w.timer
  pub one_name : (m : Bytes) → v.names m ≡ true → same_bytes m name ≡ false → w.names m ≡ true

pub restored : (w : World) → Restored w w
restored w = record {
  same_fds = refl;
  same_watched = refl;
  same_timer = refl;
  no_new_names = λ m h. h;
}

pub Restored-trans : (u v w : World) → Restored u v → Restored v w → Restored u w
Restored-trans u v w r s = record {
  same_fds = r.same_fds ∙ s.same_fds;
  same_watched = r.same_watched ∙ s.same_watched;
  same_timer = r.same_timer ∙ s.same_timer;
  no_new_names = λ m h. s.no_new_names m (r.no_new_names m h);
}

pub Restored-Behind :
    (fds watched : List ℕ) (name : Bytes) (u v w : World)
    → Restored u v
    → Behind fds watched name v w
    → Behind fds watched name u w
Restored-Behind fds watched name u v w r b = record {
  now_fds = r.same_fds ∙ b.now_fds;
  now_watched = r.same_watched ∙ b.now_watched;
  now_timer = r.same_timer ∙ b.now_timer;
  one_name = λ m h. b.one_name m (r.no_new_names m h);
}
