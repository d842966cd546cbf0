-- ===== src/EchoServer/Reach/Replies.antt =====
-- The replies that the workers of a server of many clients leave to a loop.
use reactor_server.Base.{
  true, ℕ, ◌+◌, ◌≤◌, ◌<◌, ◌≡◌, ◌≢◌, ◌⊎◌, refl, sym, ap, ◌∙◌, false, some, List, [], ◌∷◌, ◌++◌, ok,
  arith,
}
use reactor_server.Connection.Text.{NulFree}
use reactor_server.EchoServer.Defs.{Echo, State, callbacks}
use reactor_server.EchoServer.Reach.Events.{IsOpen, IsOpen-IsLive}
use reactor_server.EchoServer.Reach.Sound.{Inv, distinct}
use reactor_server.EchoServer.Reach.Steps.{runs, Reach, works, rounds, new_echo, Reach-Inv}
use reactor_server.EchoServer.Workers.{Works, start, then_, one_more}
use reactor_server.EchoServer.Workers.Replies.{texts, Works-replies}
use reactor_server.Epoll.Defs.{returned}
use reactor_server.Epoll.Kernel.{Kernel, Laws}
use reactor_server.EventLoop.Dispatch.{taking, round-handlewakeup}
use reactor_server.EventLoop.Run.{wake}
use reactor_server.EventLoop.Tasks.{Serves}
use reactor_server.InetAddress.{Inet, InetLaws}
use reactor_server.Socket.Net.{Net, NetLaws}
use reactor_server.TcpServer.Create as TcpServer
use reactor_server.TcpServer.Create.{timercallback}
use reactor_server.TcpServer.Defs.{handlers, epolltimeout}
use reactor_server.TcpServer.Ready.{IsUp}
use mathlib.Core.List.{Perm, Mem}
mod Tests

module _ (k : Kernel) (laws : Laws k) where
  -- An open connection of the loop.
  abbrev pub IsServed : ℕ → State k → ℕ → Type 0
  IsServed l w p = IsOpen k laws p w × ((w.objs p).loop ≡ l)

  Inv-Serves : (l : ℕ) (w : State k) → Inv k laws w → Serves k laws (IsServed l w) l w
  Inv-Serves l w inv = record {
    at_loop = λ p h. h.1;
    live = λ p h. IsOpen-IsLive k laws p w inv (h.0);
    distinct = λ p q hp hq ne.
        distinct k laws q p w (inv.sound q (hq.0.made)) (inv.sound p (hp.0.made)) ne;
  }

  -- The workers' runs are steps of the server.
  Works-Reach : (x : State k) {w v : State k} → Reach k laws x w → Works w v → Reach k laws x v
  Works-Reach x reach start = reach
  Works-Reach x reach (then_ {v = v} {v'} r j thread few in_range other e) =
      Reach.step (Works-Reach x reach r) (works j thread v' few e)

  Works-threadnum : {w v : State k} → Works w v → v.outer.threadnum ≡ w.outer.threadnum
  Works-threadnum start = refl
  Works-threadnum (then_ {v = v} {v'} r j thread few in_range other e) =
      let (p, m, front, back, at, place, worked) = one_more j thread v v' in_range other e in
      worked.same_threadnum ∙ Works-threadnum r

module _ (n : Net) (net_laws : NetLaws n) (i : Inet) (inet_laws : InetLaws i) (k : Kernel)
    (laws : Laws k) where
  -- In a state that an echo server with at least one sub loop reaches from its construction, the
  -- workers have tasks, each for an open connection of the loop `l` and with a text that has no NUL
  -- byte, and no task waits in that loop. When the workers have run them all, in whatever order they
  -- came to, the loop's eventfd is readable, unless there was no task. A round with that event
  -- returns, and there is one order of the tasks such that the output of each open connection of the
  -- loop has grown by the texts of its tasks, whole and in that order. With at most one worker that is
  -- the order in which the tasks were added. What the round returns is reachable again.
  pub Reach-replies :
      (a p threadnum workers : ℕ) (x : TcpServer.Server n k Echo) (w v : State k) (io l : ℕ)
      → IsUp n net_laws i inet_laws k laws a p x
      → x.world.outer ≡ new_echo n net_laws i inet_laws k laws threadnum workers
      → 0 < threadnum
      → Reach k laws x.world w
      → l ≤ w.outer.threadnum
      → ((t : ℕ × List ℕ) → Mem t w.outer.user.tasks → IsServed k laws l w (t.0) × NulFree (t.1))
      → (w.loops l).taskqueue ≡ []
      → Works w v
      → v.outer.user.tasks ≡ []
      → (v' : State k) × ((w.outer.user.tasks ≡ []) ⊎ (laws.pending (v.loops l).kernel ≡ true))
        × (runs k laws io l (taking 0) (returned ((wake, 1) ∷ [])) v ≡ ok v')
        × ((done : List (ℕ × List ℕ)) × Perm done w.outer.user.tasks
            × ((1 < w.outer.user.workers) ⊎ (done ≡ w.outer.user.tasks))
            × ((q : ℕ)
                → IsServed k laws l w q
                → (v'.objs q).outputbuffer.buf ≡ (w.objs q).outputbuffer.buf ++ texts q done))
        × Reach k laws x.world v'
  Reach-replies a p threadnum workers x w v io l up new some_loops r le texts_ empty run none_ =
      let inv =
        Reach-Inv n net_laws i inet_laws k laws a p threadnum workers x w up new some_loops r in
      let (v', signalled, woken, out, s) =
        Works-replies k laws (IsServed k laws l w) l run none_ empty (Inv-Serves k laws l w inv)
          (λ q h. h.0.is_open) texts_ in
      let returns =
        round-handlewakeup (handlers (callbacks io)) (timercallback l)
          (some (epolltimeout (callbacks io))) 0 l v v' woken in
      (
        v',
        signalled,
        returns,
        out,
        Reach.step (Works-Reach k laws x.world r run) (
            rounds io l (taking 0) ((wake, 1) ∷ []) v' (rw (Works-threadnum k laws run) le) tt
              returns),
      )
