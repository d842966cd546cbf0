-- ===== src/EchoServer/Reach/Wakes.antt =====
-- A wakeup of a loop in a server of many clients: what becomes of the tasks that wait.
use reactor_server.Base.{
  ℕ, ◌≤◌, ◌<◌, ◌≡◌, refl, sym, ap, ◌∙◌, Bool, true, false, ◌⊎◌, inl, inr, Option, none, some, List,
  [], ◌∷◌, length, leb, if◌then◌else◌, ok, Fault, fault, exits, undefined,
}
use reactor_server.EchoServer.Defs.{Echo, State, callbacks}
use reactor_server.EchoServer.Reach.Moves.{Goes, loop-Goes}
use reactor_server.EchoServer.Reach.Sends.{sendinloop-cases}
use reactor_server.EchoServer.Reach.Sound.{AllBelow, Inv}
use reactor_server.EchoServer.Reach.Steps.{runs, Reach, step, rounds, new_echo, Reach-Inv}
use reactor_server.Epoll.Defs.{returned}
use reactor_server.Epoll.Kernel.{Kernel, Laws}
use reactor_server.EventLoop.Dispatch.{
  taking, waking, round-handlewakeup, round-handlewakeup_failed,
}
use reactor_server.EventLoop.Run.{wake, run_tasks, handlewakeup}
use reactor_server.InetAddress.{Inet, InetLaws}
use reactor_server.Socket.Net.{Net, NetLaws}
use reactor_server.TcpServer.Create as TcpServer
use reactor_server.TcpServer.Create.{timercallback}
use reactor_server.TcpServer.Defs.{handlers, epolltimeout}
use reactor_server.TcpServer.Ready.{IsUp}
use reactor_server.World.{Task, Conn, put_loop, put_loop-at}
pub mod Tests

-- How the first task that fails, if one does, ends the process: its block is too short, or its
-- connection is closed.
abbrev pub verdict : List Task → (ℕ → Conn) → Option Fault
verdict [] objs = none
verdict (fn ∷ q) objs =
    if leb fn.size (length fn.block)
    then (if (objs fn.target).disconnect then some exits else verdict q objs)
    else some undefined

module _ (k : Kernel) (laws : Laws k) where
  verdict-Goes :
      (q : List Task) (w v : State k) → Goes k laws w v → verdict q v.objs ≡ verdict q w.objs
  verdict-Goes [] w v g = refl
  verdict-Goes (fn ∷ q) w v g = rw (g.same_end fn.target, verdict-Goes q w v g) refl

  run_tasks-verdict :
      (q : List Task) (l : ℕ) (w : State k)
      → Inv k laws w
      → AllBelow w.outer.next q
      → ((f : Fault) × (verdict q w.objs ≡ some f) × (run_tasks q l w ≡ fault f))
        ⊎ ((verdict q w.objs ≡ none) × ((v : State k) × (run_tasks q l w ≡ ok v)))
  unfolding run_tasks
  run_tasks-verdict [] l w inv below = inr (refl, (w, refl))
  run_tasks-verdict (fn ∷ q) l w inv below =
      let x = record (w.loops l) { taskqueue = q } in
      let w₀ = put_loop l x w in
      let g₀ = loop-Goes k laws l x w inv refl (λ j. refl) (below.1) in
      elim (sendinloop-cases k laws fn.target fn.block fn.size w₀ g₀.inv (below.0)) [
        | inl (less, failed) ↦ inl (undefined, rw less refl, rw failed refl)
        | inr (inl (enough, closed, failed)) ↦ inl (exits, rw (enough, closed) refl, rw failed refl)
        | inr (inr (enough, is_open, (v, sent, g))) ↦
            let same = verdict-Goes q w₀ v g in
            elim (run_tasks-verdict q l v g.inv (rw (g.same_next) (below.1))) [
              | inl (f, bad, failed) ↦
                  inl (f, rw (enough, is_open) (sym same ∙ bad), rw sent failed)
              | inr (good, (u, done)) ↦
                  inr (rw (enough, is_open) (sym same ∙ good), (u, rw sent done))
            ]
      ]

  handlewakeup-verdict :
      (l : ℕ) (w : State k)
      → Inv k laws w
      → l ≤ w.outer.threadnum
      → ((f : Fault) × (verdict (w.loops l).taskqueue w.objs ≡ some f)
          × (handlewakeup l w ≡ fault f))
        ⊎ ((verdict (w.loops l).taskqueue w.objs ≡ none)
            × ((v : State k) × (handlewakeup l w ≡ ok v)))
  unfolding handlewakeup
  handlewakeup-verdict l w inv le =
      let x = record (w.loops l) { kernel = k.read_event (w.loops l).kernel } in
      let g =
        loop-Goes k laws l x w inv refl (λ j. laws.read_watched j (w.loops l).kernel)
          (inv.queues l le) in
      run_tasks-verdict (w.loops l).taskqueue l (put_loop l x w) g.inv (inv.queues l le)

module _ (n : Net) (net_laws : NetLaws n) (i : Inet) (inet_laws : InetLaws i) (k : Kernel)
    (laws : Laws k) where
  -- In every state that an echo server with at least one sub loop reaches from its construction, by
  -- whatever steps, the round in which the eventfd of one of its loops is readable has one of two
  -- outcomes, by the tasks that wait in the loop. Either each task's block is long enough and its
  -- connection open, and the round returns a state that is reachable again; or the first task of
  -- which that is not true ends the process: by undefined behaviour, where the block is too short, or
  -- else by the exit of the program, where the connection was closed after the task was queued.
  pub Reach-wakeup :
      (a p threadnum workers : ℕ) (x : TcpServer.Server n k Echo) (w : State k) (io l : ℕ)
      → IsUp n net_laws i inet_laws k laws a p x
      → x.world.outer ≡ new_echo n net_laws i inet_laws k laws threadnum workers
      → 0 < threadnum
      → Reach k laws x.world w
      → l ≤ w.outer.threadnum
      → let r = runs k laws io l (taking 0) (returned ((wake, 1) ∷ [])) w in
        ((f : Fault) × (verdict (w.loops l).taskqueue w.objs ≡ some f) × (r ≡ fault f))
        ⊎ ((verdict (w.loops l).taskqueue w.objs ≡ none)
            × ((v : State k) × (r ≡ ok v) × Reach k laws x.world v))
  Reach-wakeup a p threadnum workers x w io l up new some_loops r le =
      let inv =
        Reach-Inv n net_laws i inet_laws k laws a p threadnum workers x w up new some_loops r in
      let h = handlers (callbacks io) in
      let cb = timercallback l in
      let tick = some (epolltimeout (callbacks io)) in
      let g = loop-Goes k laws l _ w inv refl (λ j. refl) (inv.queues l le) in
      elim (handlewakeup-verdict k laws l (waking l w) g.inv le) [
        | inl (f, bad, failed) ↦
            inl
              (f, rw (put_loop-at l _ w) at bad, round-handlewakeup_failed h cb tick 0 l f w failed)
        | inr (good, (v, done)) ↦
            let returns = round-handlewakeup h cb tick 0 l w v done in
            inr (
              rw (put_loop-at l _ w) at good,
              (v, returns, Reach.step r (rounds io l (taking 0) ((wake, 1) ∷ []) v le tt returns)),
            )
      ]
