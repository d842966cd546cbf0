-- ===== src/Channel/State.antt =====
-- The fields of a `Channel`, its event masks, and the choice of a callback by `handleevent`.
use reactor_server.Base.{
  ℕ, ◌+◌, ◌-◌, ◌/◌, ◌%◌, ◌^◌, Bool, false, ◌||◌, Option, none, some, ◌==◌, if◌then◌else◌, Outcome,
  fault, bad_function_call,
}

-- Masks of <sys/epoll.h>, each by the place of its one bit.
abbrev pub epollin : ℕ
epollin = 0

abbrev pub epollpri : ℕ
epollpri = 1

abbrev pub epollout : ℕ
epollout = 2

abbrev pub epollrdhup : ℕ
epollrdhup = 13

abbrev pub epollet : ℕ
epollet = 31

-- `(x & 1 << k) != 0`
abbrev pub has : ℕ → ℕ → Bool
has x k = x / 2 ^ k % 2 == 1

-- `x | 1 << k`
abbrev pub with_bit : ℕ → ℕ → ℕ
with_bit x k = if has x k then x else x + 2 ^ k

-- `x & ~(1 << k)`
abbrev pub without_bit : ℕ → ℕ → ℕ
without_bit x k = if has x k then x - 2 ^ k else x

-- The class, less its callbacks (below) and its event loop, which the calls are given.
pub record Channel : Type 0 where
  pub fd : ℕ
  pub inepoll : Bool
  pub events : ℕ
  pub revents : ℕ

unfoldable pub create : ℕ → Channel
create fd = record { fd = fd; inepoll = false; events = 0; revents = 0 }

unfoldable pub useet : Channel → Channel
useet ch = record ch { events = with_bit ch.events epollet }

unfoldable pub setinepoll : Channel → Bool → Channel
setinepoll ch inepoll = record ch { inepoll = inepoll }

unfoldable pub setrevents : Channel → ℕ → Channel
setrevents ch ev = record ch { revents = ev }

-- The four std::function members, on the states of the program; one that was not set is `none`.
pub record Callbacks {ℓ} (W : Type ℓ) : Type ℓ where
  pub readcallback : Option (W → Outcome W)
  pub closecallback : Option (W → Outcome W)
  pub errorcallback : Option (W → Outcome W)
  pub writecallback : Option (W → Outcome W)

module _ {ℓ} {W : Type ℓ} where
  unfoldable pub no_callbacks : Callbacks W
  no_callbacks = record {
    readcallback = none;
    closecallback = none;
    errorcallback = none;
    writecallback = none;
  }

  unfoldable pub setreadcallback : Callbacks W → (W → Outcome W) → Callbacks W
  setreadcallback c fn = record c { readcallback = some fn }

  unfoldable pub setclosecallback : Callbacks W → (W → Outcome W) → Callbacks W
  setclosecallback c fn = record c { closecallback = some fn }

  unfoldable pub seterrorcallback : Callbacks W → (W → Outcome W) → Callbacks W
  seterrorcallback c fn = record c { errorcallback = some fn }

  unfoldable pub setwritecallback : Callbacks W → (W → Outcome W) → Callbacks W
  setwritecallback c fn = record c { writecallback = some fn }

  -- The call of a std::function throws if it was not set.
  abbrev pub call : Option (W → Outcome W) → W → Outcome W
  call none w = fault bad_function_call
  call (some fn) w = fn w

  unfoldable pub handleevent : Channel → Callbacks W → W → Outcome W
  handleevent ch c w =
      if has ch.revents epollrdhup
      then call c.closecallback w
      else if has ch.revents epollin || has ch.revents epollpri
      then call c.readcallback w
      else if has ch.revents epollout
      then call c.writecallback w
      else call c.errorcallback w
