-- ===== src/EventLoop/Tests.antt =====
-- The theorems about a loop at a server with one client.
use reactor_server.Base.{none, ◌++◌, ℕ, ◌≡◌, refl, List, [], ◌∷◌, ok, arith, ◌∙◌, sym}
use reactor_server.Epoll.Table.{table, table_laws}
use reactor_server.EventLoop.Tasks.{Serves, addressed}
use reactor_server.EventLoop.Flow.{Delivers}
use reactor_server.EventLoop.Delivery.{post, woken, writable, events, events-Delivers}
use reactor_server.Samples.{world_7, plain, quiet_handlers, IsLive-world_7}
use reactor_server.World.{Task, World}

-- Two tasks for the client.
abbrev asked : List Task
asked =
    record { target = 0; block = b'a' ∷ b'b' ∷ 0 ∷ []; size = 2 }
    ∷ record { target = 0; block = b'c' ∷ 0 ∷ []; size = 1 }
    ∷ []

abbrev busy : World table ℕ
busy = world_7 1 (plain []) [] asked 0

abbrev IsFirst : ℕ → Type 0
IsFirst p = p ≡ 0

serves : Serves table table_laws IsFirst 1 busy
serves = record {
  at_loop = λ p h. refl;
  live = λ p h. IsLive-world_7 {S = ℕ} 1 (plain []) [] asked 0;
  distinct = λ p q hp hq ne. absurd (ne (hp ∙ sym hq));
}

-- Nothing waits in the output buffer, and two tasks in the queue; the loop's thread is 5.
delivers : Delivers table table_laws (quiet_handlers {S = ℕ}) 1 0 5 (λ w. refl) busy
delivers = record {
  flows = record {
    live = IsLive-world_7 {S = ℕ} 1 (plain []) [] asked 0;
    watched_for = λ ne. absurd (ne refl);
  };
  at_loop = refl;
  open_ = refl;
  thread = refl;
  tasks = (refl, omega arith, (refl, omega arith, tt));
}

-- Thread 8 sends, the loop wakes up, thread 9 sends, and the socket takes two bytes.
events-Delivers_example :
    (sent : List ℕ) × (w' : World table ℕ) × (events
        (quiet_handlers {S = ℕ})
        none
        none
        1
        0
        (post 8 (b'd' ∷ []) ∷ woken ∷ post 9 (b'e' ∷ []) ∷ writable 2 ∷ [])
        busy
      ≡ ok (sent, w'))
    × (sent ++ (w'.objs 0).outputbuffer.buf ++ addressed 0 (w'.loops 1).taskqueue
        ≡ b'a' ∷ b'b' ∷ b'c' ∷ b'd' ∷ b'e' ∷ [])
    × Delivers table table_laws quiet_handlers 1 0 5 (λ w. refl) w'
events-Delivers_example =
    events-Delivers table table_laws quiet_handlers none none 1 0 5 (λ w. refl)
      (post 8 (b'd' ∷ []) ∷ woken ∷ post 9 (b'e' ∷ []) ∷ writable 2 ∷ []) busy delivers
      (
        ((λ h. omega (arith, h)), ((λ h. omega (arith, h)), tt)),
        (tt, (((λ h. omega (arith, h)), ((λ h. omega (arith, h)), tt)), (tt, tt))),
      )
