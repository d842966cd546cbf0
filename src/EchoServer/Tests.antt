-- ===== src/EchoServer/Tests.antt =====
-- An echo server with one client, with a worker and without.
use reactor_server.Base.{true, ℕ, ◌≤◌, ◌≡◌, ◌++◌, refl, List, [], ◌∷◌, ok, fault, undefined, arith}
use reactor_server.Client.{text, request}
use reactor_server.Connection.Defs.{Read, got, would_block, onmessage, strdup, send}
use reactor_server.Connection.Live.{IsLive}
use reactor_server.EchoServer.Defs.{Echo, State, callbacks, work, on_message}
use reactor_server.EchoServer.Overread.{client-overread}
use reactor_server.EchoServer.Workers.{Works, start, then_, ran, reply}
use reactor_server.EchoServer.Workers.Order.{Works-swaps, Works-ends}
use reactor_server.Epoll.Table.{table, table_laws}
use reactor_server.EventLoop.Dispatch.{waking}
use reactor_server.EventLoop.Defs.{isinloopthread, queueinloop}
use reactor_server.World.{put_loop}
use reactor_server.EventLoop.Run.{handlewakeup}
use reactor_server.Samples.{world_7, plain, IsLive-world_7}
use reactor_server.TcpServer.Defs.{Tcp, handlers}

abbrev server : ℕ → Tcp Echo
server workers = record {
  threadnum = 1;
  conns = (7, 0) ∷ [];
  next = 1;
  user = record { workers = workers; tasks = [] };
}

-- One byte waits to be sent already.
abbrev serving : ℕ → State table
serving workers = world_7 5 (plain []) (b'a' ∷ []) [] (server workers)

serving-IsLive : (workers : ℕ) → IsLive table table_laws 0 (serving workers)
serving-IsLive workers = IsLive-world_7 {S = Tcp Echo} 5 (plain []) (b'a' ∷ []) [] (server workers)

-- "28", NUL, NUL, NUL and the first text, in one `read`.
abbrev first_request : List Read
first_request = got 28 (0 ∷ 0 ∷ 0 ∷ text 0) ∷ []

client-overread_example :
    (w₁ : State table) × (w₂ : State table) × (onmessage
        (handlers (callbacks 5))
        2
        (λ r. 9)
        (first_request ++ would_block ∷ [])
        0
        (serving 1)
      ≡ ok w₁)
    × (work 0 8 w₁ ≡ ok w₂)
    × (table_laws.pending (w₂.loops 1).kernel ≡ true)
    × (handlewakeup 1 (waking 1 w₂) ≡ fault undefined)
unfolding isinloopthread request text
client-overread_example =
    client-overread table table_laws 0 0 5 8 0 (λ r. 9) first_request [] (serving 1) (omega arith)
      refl tt refl refl refl refl refl (omega arith)

-- Two workers, with a task each, for "x" and for "y".
abbrev two_tasks : State table
two_tasks = world_7 5 (plain []) (b'a' ∷ []) [] (record (server 2) {
  user = record { workers = 2; tasks = (0, b'x' ∷ []) ∷ (0, b'y' ∷ []) ∷ [] };
})

Works-swaps_example :
    (v : State table) × Works two_tasks v
    × (v.outer.user.tasks ≡ [])
    × ((v.loops 1).taskqueue ≡ [] ++ reply 0 (b'y' ∷ []) ∷ reply 0 (b'x' ∷ []) ∷ [])
unfolding isinloopthread
Works-swaps_example =
    Works-swaps two_tasks 8 0 (b'x' ∷ []) (b'y' ∷ []) (omega arith) (λ p. refl) refl refl

-- The second of them has run.
abbrev one_left : State table
one_left = put_loop 1 (queueinloop (reply 0 (b'y' ∷ [])) (two_tasks.loops 1)) (record two_tasks {
  outer = record (server 2) { user = record { workers = 2; tasks = (0, b'x' ∷ []) ∷ [] } };
})

one_ran : Works two_tasks one_left
unfolding isinloopthread work on_message send strdup
one_ran = then_ start 1 8 (omega arith) (omega arith) (λ p. refl) refl

Works-ends_example :
    (ran one_ran ≤ 2) × ((u : State table) × Works one_left u × (u.outer.user.tasks ≡ []))
unfolding isinloopthread
Works-ends_example = Works-ends 8 (omega arith) (λ p. refl) one_ran
