-- ===== src/Epoll/Kernel.antt =====
-- What the program asks of the kernel, and what the manual pages epoll_ctl(2), eventfd(2)
-- and timerfd_settime(2) promise.
use reactor_server.Base.{ℕ, ◌≡◌, Bool, true, false, Option, none, some, ◌==◌, if◌then◌else◌}

-- The second argument of `epoll_ctl`.
pub data CtlOp : Type 0 where
  add mod_ del : CtlOp

-- The system calls on one epoll instance, one eventfd and one timerfd, over the kernel's state.
pub record Kernel : Type 1 where
  pub State : Type 0
  -- `epoll_ctl(epfd, op, fd, {events})`: the new state, and whether the answer was not -1.
  pub ctl : CtlOp → ℕ → ℕ → State → State × Bool
  -- `write(wakeupfd, 1)` and `read(wakeupfd)`, of which the program ignores the answers.
  pub write_event : State → State
  pub read_event : State → State
  -- `timerfd_settime(timerfd, 0, {seconds, once}, 0)`, of which the program ignores the answer.
  pub arm_timer : ℕ → State → State

-- What a successful call leaves in the interest list for its descriptor.
abbrev pub entry : CtlOp → ℕ → Option ℕ
entry add events = some events
entry mod_ events = some events
entry del events = none

-- The interest list of an epoll instance, as it can be observed, and how the calls change it.
pub record Laws (k : Kernel) : Type 0 where
  pub watched : k.State → ℕ → Option ℕ
  pub pending : k.State → Bool
  -- After how many seconds the timer was last told to go off.
  pub armed : k.State → ℕ
  -- A call that succeeds changes the entry of its own descriptor.
  pub changes :
      (op : CtlOp) (fd events j : ℕ) (s : k.State)
      → (k.ctl op fd events s).1 ≡ true
      → watched (k.ctl op fd events s).0 j ≡ (if fd == j then entry op events else watched s j)
  -- A call that fails changes nothing.
  pub keeps :
      (op : CtlOp) (fd events j : ℕ) (s : k.State)
      → (k.ctl op fd events s).1 ≡ false
      → watched (k.ctl op fd events s).0 j ≡ watched s j
  -- ENOENT: what is not in the list cannot be modified or deleted.
  pub mod_missing :
      (fd events : ℕ) (s : k.State) → watched s fd ≡ none → (k.ctl mod_ fd events s).1 ≡ false
  pub del_missing :
      (fd events : ℕ) (s : k.State) → watched s fd ≡ none → (k.ctl del fd events s).1 ≡ false
  -- EEXIST: what is in the list cannot be added.
  pub add_present :
      (fd events e : ℕ) (s : k.State) → watched s fd ≡ some e → (k.ctl add fd events s).1 ≡ false
  -- Nothing else stands against a change of an entry that is there.
  pub mod_present :
      (fd events e : ℕ) (s : k.State) → watched s fd ≡ some e → (k.ctl mod_ fd events s).1 ≡ true
  pub del_present :
      (fd events e : ℕ) (s : k.State) → watched s fd ≡ some e → (k.ctl del fd events s).1 ≡ true
  -- An eventfd is readable from a write to the next read, and has no part in the interest list.
  pub write_pending : (s : k.State) → pending (k.write_event s) ≡ true
  pub read_pending : (s : k.State) → pending (k.read_event s) ≡ false
  pub write_watched : (j : ℕ) (s : k.State) → watched (k.write_event s) j ≡ watched s j
  pub read_watched : (j : ℕ) (s : k.State) → watched (k.read_event s) j ≡ watched s j
  -- A timer has a part in neither, and the other calls none in the timer.
  pub arm_armed : (seconds : ℕ) (s : k.State) → armed (k.arm_timer seconds s) ≡ seconds
  pub arm_watched : (seconds j : ℕ) (s : k.State) → watched (k.arm_timer seconds s) j ≡ watched s j
  pub arm_pending : (seconds : ℕ) (s : k.State) → pending (k.arm_timer seconds s) ≡ pending s
  pub ctl_armed :
      (op : CtlOp) (fd events : ℕ) (s : k.State) → armed (k.ctl op fd events s).0 ≡ armed s
