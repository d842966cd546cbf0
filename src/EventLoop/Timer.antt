-- ===== src/EventLoop/Timer.antt =====
-- The timer of a sub loop, with a test of the idle time that is always false.
use reactor_server.Base.{ℕ, ◌≡◌, refl, List, [], ◌∷◌, ok, arith}
use reactor_server.Connection.Defs.{timeout}
use reactor_server.Epoll.Kernel.{Kernel, Laws}
use reactor_server.EventLoop.Run.{sweep, handletimer}
use reactor_server.World.{Loop, World, Call, put_loop}

module _ {k : Kernel} where
  -- The loop whose timer was set again.
  abbrev pub rearmed : Loop k → Loop k
  rearmed x = record x { kernel = k.arm_timer x.timetvl x.kernel }

module _ {k : Kernel} {S : Type 0} where
  sweep-keeps :
      (cb : Call k S) (now : ℕ) (entries : List (ℕ × ℕ)) (l : ℕ) (w : World k S)
      → sweep cb now entries l w ≡ ok w
  unfolding sweep timeout
  sweep-keeps cb now [] l w = refl
  sweep-keeps cb now ((fd, p) ∷ rest) l w = ground (arith, sweep-keeps cb now rest l w)

  pub handletimer-eq :
      (cb : Call k S) (now l : ℕ) (w : World k S)
      → handletimer cb now l w ≡ ok (put_loop l (rearmed (w.loops l)) w)
  unfolding handletimer
  handletimer-eq cb now l w =
      ground (arith, sweep-keeps cb now (w.loops l).conns l (put_loop l (rearmed (w.loops l)) w))

module _ {k : Kernel} (laws : Laws k) {S : Type 0} where
  open laws use {watched, pending, armed}

  -- However long a connection has been idle, the timer neither drops it from its loop nor calls the
  -- server: on every loop and at every time it returns, and all that it changes is that the timer of
  -- the loop is to go off again after the loop's interval; what the loop's epoll watches is as before.
  pub handletimer-keeps :
      (cb : Call k S) (now l : ℕ) (w : World k S)
      → (s : k.State) × (handletimer cb now l w
          ≡ ok (put_loop l (record (w.loops l) { kernel = s }) w))
        × (armed s ≡ (w.loops l).timetvl)
        × (pending s ≡ pending (w.loops l).kernel)
        × ((j : ℕ) → watched s j ≡ watched (w.loops l).kernel j)
  handletimer-keeps cb now l w =
      let x = w.loops l in
      (
        k.arm_timer x.timetvl x.kernel,
        handletimer-eq cb now l w,
        laws.arm_armed x.timetvl x.kernel,
        laws.arm_pending x.timetvl x.kernel,
        λ j. laws.arm_watched x.timetvl j x.kernel,
      )
