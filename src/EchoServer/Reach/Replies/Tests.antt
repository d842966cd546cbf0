-- ===== src/EchoServer/Reach/Replies/Tests.antt =====
-- A client that sends twice before the worker runs.
use reactor_server.Base.{true, ℕ, zero, suc, ◌<◌, ◌≡◌, ◌⊎◌, refl, List, [], ◌∷◌, ◌++◌, ok, arith}
use reactor_server.EchoServer.Reach.Replies.{IsServed, Reach-replies}
use reactor_server.Connection.Text.{NulFree}
use reactor_server.Epoll.Table.{table, table_laws}
use reactor_server.EchoServer.Defs.{State, callbacks, work, work_prefix}
use reactor_server.EchoServer.Reach.Steps.{runs, Reach, IsReported, step, rounds}
use reactor_server.EchoServer.Reach.Tests.{localhost, begun, server, server-IsUp}
use reactor_server.EchoServer.Reach.Wakes.Tests.{result, received, received-Reach}
use reactor_server.EchoServer.Way.{coming}
use reactor_server.EchoServer.Workers.{Works, start, then_, IsWorker}
use reactor_server.EchoServer.Workers.Replies.{texts}
use reactor_server.EchoServer.Reply.{nul_free-NulFree}
use reactor_server.Buffer.{append, pickmessage, pick_all}
use reactor_server.Connection.Defs.{got, handle, onmessage, drain, strdup, send}
use reactor_server.Epoll.Defs.{returned}
use reactor_server.EventLoop.Defs as EventLoop
use reactor_server.EventLoop.Defs.{isinloopthread}
use reactor_server.EventLoop.Dispatch.{taking}
use reactor_server.EventLoop.Run.{wake, client, round, handle_all, handle_source, put_revents}
use reactor_server.TcpServer.Defs as TcpServer
use reactor_server.Socket.Table.{sockets, sockets_laws, numbers, numbers_laws}
use native.Mathlib.Bridge.{le_prop}
use mathlib.Core.List.{Perm, Mem, forall_mem-cons, not-mem-nil}

IsServed-prop : (w : State table) (p : ℕ) → IsProp (IsServed table table_laws 1 w p)
IsServed-prop w p = hlevel (le_prop)

NulFree-prop : (m : List ℕ) → IsProp (NulFree m)
NulFree-prop [] = hlevel
NulFree-prop (b ∷ m) = hlevel (NulFree-prop m)

-- Two tasks for clients of a loop.
module _ (w : State table) where
  IsText : ℕ × List ℕ → Type 0
  IsText t = IsServed table table_laws 1 w (t.0) × NulFree (t.1)

  IsText-prop : (t : ℕ × List ℕ) → IsProp (IsText t)
  unfolding IsText
  IsText-prop t = hlevel (IsServed-prop w (t.0), NulFree-prop (t.1))

  twice :
      (x y : ℕ × List ℕ) → IsText x → IsText y → (t : ℕ × List ℕ) → Mem t (x ∷ y ∷ []) → IsText t
  twice x y hx hy =
      (forall_mem-cons IsText-prop).1
        (hx, (forall_mem-cons IsText-prop).1 (hy, λ t h. absurd (not-mem-nil h)))

-- The client sends "h" and then "i", and the only worker runs both tasks.
abbrev received_again : State table
received_again = result (
    runs table table_laws 5 1 (coming 0 (λ r. 9) (got b'i' [] ∷ []) [])
      (returned ((client 0, 1) ∷ [])) received)

abbrev once : State table
once = result (work 0 8 received_again)

abbrev both : State table
both = result (work 0 8 once)

steps :
    (runs table table_laws 5 1
        (coming 0 (λ r. 9) (got b'i' [] ∷ []) [])
        (returned ((client 0, 1) ∷ []))
        received
      ≡ ok received_again)
    × (work 0 8 received_again ≡ ok once)
    × (work 0 8 once ≡ ok both)
    × IsReported table table_laws 1 0 received
    × (received.outer.threadnum ≡ 1)
    × (received_again.outer.threadnum ≡ 1)
    × IsServed table table_laws 1 received_again 0
    × (received_again.outer.user.tasks
        ≡ (0, work_prefix ++ b'h' ∷ []) ∷ (0, work_prefix ++ b'i' ∷ []) ∷ [])
    × ((received_again.loops 1).taskqueue ≡ [])
    × (both.outer.user.tasks ≡ [])
    × (received_again.outer.user.workers ≡ 1)
    × (once.outer.user.tasks ≡ (0, work_prefix ++ b'i' ∷ []) ∷ [])
    × (once.outer.user.workers ≡ 1)
    × IsWorker 8 received_again
    × IsWorker 8 once
unfolding work send strdup round handle_all handle_source handle put_revents onmessage append drain
    pickmessage pick_all TcpServer.handlers TcpServer.onmessage callbacks EventLoop.newconnection
    isinloopthread
steps = (
  refl,
  refl,
  refl,
  record { made = omega arith; at_loop = refl; interest = 1; listed = refl },
  refl,
  refl,
  (record { made = omega arith; is_open = refl }, refl),
  refl,
  refl,
  refl,
  refl,
  refl,
  refl,
  first,
  second,
)
  where
    first : IsWorker 8 received_again
    first zero = refl
    first (suc p) = ground arith

    second : IsWorker 8 once
    second zero = refl
    second (suc p) = ground arith

again-Reach : Reach table table_laws begun received_again
again-Reach = step received-Reach (
    rounds 5 1 (coming 0 (λ r. 9) (got b'i' [] ∷ []) []) ((client 0, 1) ∷ []) received_again
      (omega (arith, steps.4)) (steps.3, tt, tt) steps.0)

runs_both : Works received_again both
runs_both =
    then_
      (then_ start 0 8 (omega (arith, steps.10)) (rw (steps.7) (omega arith)) (steps.13) steps.1) 0
      8 (omega (arith, steps.12)) (rw (steps.11) (omega arith)) steps.14 steps.2

texts_served : (t : ℕ × List ℕ) → Mem t received_again.outer.user.tasks → IsText received_again t
unfolding IsText
texts_served = rw (steps.7) (
    twice received_again (0, work_prefix ++ b'h' ∷ []) (0, work_prefix ++ b'i' ∷ [])
      (steps.6, nul_free-NulFree (work_prefix ++ b'h' ∷ []) refl)
      (steps.6, nul_free-NulFree (work_prefix ++ b'i' ∷ []) refl))

-- The eventfd that the worker wrote to is readable.
Reach-replies_example :
    (v : State table) × ((received_again.outer.user.tasks ≡ [])
      ⊎ (table_laws.pending (both.loops 1).kernel ≡ true))
    × (runs table table_laws 5 1 (taking 0) (returned ((wake, 1) ∷ [])) both ≡ ok v)
    × ((done : List (ℕ × List ℕ)) × Perm done received_again.outer.user.tasks
        × ((1 < received_again.outer.user.workers) ⊎ (done ≡ received_again.outer.user.tasks))
        × ((q : ℕ)
            → IsServed table table_laws 1 received_again q
            → (v.objs q).outputbuffer.buf
              ≡ (received_again.objs q).outputbuffer.buf ++ texts q done))
    × Reach table table_laws begun v
unfolding IsText
Reach-replies_example =
    Reach-replies sockets sockets_laws numbers numbers_laws table table_laws localhost 5050 1 1
      server received_again both 5 1 server-IsUp refl (omega arith) again-Reach
      (omega (arith, steps.5)) texts_served steps.8 runs_both steps.9
