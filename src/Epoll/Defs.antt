-- ===== src/Epoll/Defs.antt =====
-- The class `Epoll`: a channel's interest is registered, changed and taken back.
use reactor_server.Base.{
  ℕ, true, Option, none, some, if◌then◌else◌, Outcome, ok, fault, exits, guard, ◌>>=◌, ◌>>◌, List,
  [], ◌∷◌,
}
use reactor_server.Channel.State.{Channel, setinepoll}
use reactor_server.Epoll.Kernel.{Kernel, CtlOp, add, mod_, del}

-- An answer of `epoll_wait`: -1, or events, each with its channel (`data.ptr`).
pub data Wait (P : Type 0) : Type 0 where
  failed : Wait P
  returned : List (P × ℕ) → Wait P

-- `put` writes the `revents_` of the channel that a pointer stands for.
module _ {P St : Type 0} (put : P → ℕ → St → St) where
  unfoldable pub collect : List (P × ℕ) → St → St × List P
  collect [] st = (st, [])
  collect ((p, ev) ∷ evs) st = let (st', ps) = collect evs (put p ev st) in (st', p ∷ ps)

  -- `timeout` and the array of at most 100 events are the kernel's affair.
  unfoldable pub loop : Wait P → St → Outcome (St × List P)
  unfolding collect
  loop failed st = fault exits
  loop (returned evs) st = ok (collect evs st)

module _ (k : Kernel) where
  -- The constructor, with the answer of `epoll_create`: the state of a new epoll instance.
  unfoldable pub create : Option k.State → Outcome k.State
  create none = fault exits
  create (some s) = ok s

  -- `if(epoll_ctl(...) == -1) exit(-1);`
  unfoldable pub ctl_or_exit : CtlOp → ℕ → ℕ → k.State → Outcome k.State
  ctl_or_exit op fd events s = do let (s', done) = k.ctl op fd events s; guard done exits; ok s'

  unfoldable pub updatechannel : Channel → k.State → Outcome (Channel × k.State)
  unfolding ctl_or_exit setinepoll
  updatechannel ch s =
      if ch.inepoll
      then (do s' ← ctl_or_exit mod_ ch.fd ch.events s; ok (ch, s'))
      else (do s' ← ctl_or_exit add ch.fd ch.events s; ok (setinepoll ch true, s'))

  unfoldable pub removechannel : Channel → k.State → Outcome (Channel × k.State)
  unfolding ctl_or_exit
  removechannel ch s =
      if ch.inepoll then (do s' ← ctl_or_exit del ch.fd 0 s; ok (ch, s')) else ok (ch, s)
