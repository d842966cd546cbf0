-- ===== src/EchoServer/Way.antt =====
-- The way of one message: `Connection::onmessage`, `EchoServer::HandleMessage`, and a worker's part.
use reactor_server.Base.{
  true, ℕ, suc, ◌<◌, ◌≡◌, refl, ap, ◌∙◌, false, List, [], ◌∷◌, ◌++◌, length, ok, ◌==◌, arith,
}
use reactor_server.Buffer.{Buffer}
use reactor_server.Connection.Defs.{took, Answers, would_block, invoke_message, onmessage, send}
use reactor_server.Connection.Input.{GoesOn, bytes_of, onmessage-delivers}
use reactor_server.Connection.Defs.{Read}
use reactor_server.Connection.Live.{IsLive, put_conn-keeps}
use reactor_server.Connection.Text.{NulFree, c_str}
use reactor_server.EchoServer.Defs.{
  Echo, State, io_prefix, work_prefix, on_message, add_task, handle_message, callbacks, work,
}
use reactor_server.EventLoop.Dispatch.{
  taking, waking, arriving, round-handlewakeup, round-onmessage,
}
use reactor_server.Epoll.Defs.{returned}
use reactor_server.Epoll.Kernel.{Kernel, Laws}
use reactor_server.EventLoop.Defs.{isinloopthread}
use reactor_server.EventLoop.Run.{Source, wake, client, round, handlewakeup}
use reactor_server.TcpServer.Defs.{Tcp, handlers}
use reactor_server.TcpServer.Defs as TcpServer
use reactor_server.World.{Call, Conn, World, put_conn, put_conn-at}
use reactor_server.EchoServer.Reply.{
  NulFree-append, nul_free-NulFree, reply-output_at, reply-output_own,
}

-- The answers in a round in which `read` brings bytes, and then no more.
abbrev pub coming : ℕ → (ℕ → ℕ) → List Read → List Read → Source → Answers
coming fuel clock reads rest src = record {
  fuel = suc (suc fuel);
  clock = clock;
  reads = reads ++ would_block ∷ rest;
  answer = took 0;
}

module _ (k : Kernel) (laws : Laws k) where
  -- A server without tasks.
  abbrev pub no_tasks : State k → State k
  no_tasks w = record w { outer = record w.outer { user = record w.outer.user { tasks = [] } } }

  pub handle_message-worker :
      (io p : ℕ) (m : List ℕ) (w : State k)
      → 0 < w.outer.user.workers
      → invoke_message (handlers (callbacks io)).onmessagecallback_ p m w
        ≡ ok (work_prefix ++ m, add_task p (work_prefix ++ m) w)
  unfolding handlers TcpServer.onmessage callbacks handle_message
  handle_message-worker io p m w some_ = rw (positive w.outer.user.workers some_) refl
    where
      positive : (n : ℕ) → 0 < n → (n == 0) ≡ false
      positive n pos = ground arith

  pub work-add_task :
      (thread p : ℕ) (m : List ℕ) (w : State k)
      → w.outer.user.tasks ≡ []
      → work 0 thread (add_task p m w) ≡ send thread p (c_str m) (length m) (no_tasks w)
  unfolding work add_task on_message
  work-add_task thread p m w e = rw e

  -- The world in which the callback for a message is called.
  abbrev pub reading : {S : Type 0} → ℕ → ℕ → World k S → World k S
  reading p time w =
      put_conn p (record (w.objs p) { inputbuffer = record { buf = []; sep = 0 }; lasttime = time })
        w

  -- The same, by calls of the methods.
  answered :
      (fuel io thread p : ℕ) (clock : ℕ → ℕ) (reads rest : List Read) (w : State k)
      → IsLive k laws p w
      → (w.objs p).disconnect ≡ false
      → (w.objs p).inputbuffer ≡ record { buf = []; sep = 0 }
      → (w.loops (w.objs p).loop).taskqueue ≡ []
      → isinloopthread thread (w.loops (w.objs p).loop) ≡ false
      → w.outer.user.tasks ≡ []
      → 0 < w.outer.user.workers
      → GoesOn reads
      → 0 < length (bytes_of reads)
      → NulFree (bytes_of reads)
      → (w₁ : State k) × (w₂ : State k) × (w₃ : State k) × (onmessage
            (handlers (callbacks io))
            (suc (suc fuel))
            clock
            (reads ++ would_block ∷ rest)
            p
            w
          ≡ ok w₁)
        × (work 0 thread w₁ ≡ ok w₂)
        × (laws.pending (w₂.loops (w.objs p).loop).kernel ≡ true)
        × (handlewakeup (w.objs p).loop (waking (w.objs p).loop w₂) ≡ ok w₃)
        × ((w₃.objs p).outputbuffer.buf
            ≡ (w.objs p).outputbuffer.buf ++ (work_prefix ++ bytes_of reads))
        × IsLive k laws p w₃
  unfolding add_task
  answered fuel io thread p clock reads rest w live open_ ready idle other none_ some_ goes pos
        text =
      let m = work_prefix ++ bytes_of reads in
      let v = reading p (clock 0) w in
      let c = record (w.objs p) {
        inputbuffer = record { buf = []; sep = 0 };
        lasttime = clock 0;
      } in
      let v' = no_tasks v in
      let (w₂, w₃, sent, signalled, woken, out, live₃) =
        reply-output_at k laws p thread m c v' (put_conn-at p c w)
          ((put_conn-keeps k laws p c w live refl refl).1) open_
          (NulFree-append work_prefix (bytes_of reads) (nul_free-NulFree work_prefix refl) text)
          other idle in
      (
        add_task p m v,
        w₂,
        w₃,
        onmessage-delivers (handlers (callbacks io)) fuel clock reads rest p [] m w (add_task p m v)
            goes ready pos (handle_message-worker io p (bytes_of reads) v some_)
            (ap (λ (d : Conn). d.inputbuffer.buf) (put_conn-at p c w)),
        work-add_task thread p m v none_ ∙ sent,
        signalled,
        woken,
        out,
        live₃,
      )

  -- A client of an echo server with workers sends bytes of which none is NUL, on a live, open
  -- connection with an empty input buffer, and there is no other task in the pool or in the loop. A
  -- round of the loop with EPOLLIN on the socket reads them and gives the pool a task; a worker,
  -- another thread, runs it; and a round with the wakeup that this causes puts "WORK thread " and
  -- the bytes behind what the connection has to send. The connection stays live.
  pub echo-answers :
      (cb idle : Call k (Tcp Echo)) (fuel io thread p : ℕ) (clock : ℕ → ℕ) (reads rest : List Read)
      (w : State k)
      → IsLive k laws p w
      → (w.objs p).disconnect ≡ false
      → (w.objs p).inputbuffer ≡ record { buf = []; sep = 0 }
      → (w.loops (w.objs p).loop).taskqueue ≡ []
      → isinloopthread thread (w.loops (w.objs p).loop) ≡ false
      → w.outer.user.tasks ≡ []
      → 0 < w.outer.user.workers
      → GoesOn reads
      → 0 < length (bytes_of reads)
      → NulFree (bytes_of reads)
      → (w₁ : State k) × (w₂ : State k) × (w₃ : State k) × (round
            (handlers (callbacks io))
            cb
            idle
            (coming fuel clock reads rest)
            (w.objs p).loop
            (returned ((client p, 1) ∷ []))
            w
          ≡ ok w₁)
        × (work 0 thread w₁ ≡ ok w₂)
        × (laws.pending (w₂.loops (w.objs p).loop).kernel ≡ true)
        × (round
              (handlers (callbacks io))
              cb
              idle
              (taking 0)
              (w.objs p).loop
              (returned ((wake, 1) ∷ []))
              w₂
            ≡ ok w₃)
        × ((w₃.objs p).outputbuffer.buf
            ≡ (w.objs p).outputbuffer.buf ++ (work_prefix ++ bytes_of reads))
        × IsLive k laws p w₃
  echo-answers cb idle fuel io thread p clock reads rest w live open_ ready idle_ other none_ some_
        goes pos text =
      let h = handlers (callbacks io) in
      let l = (w.objs p).loop in
      let c = record (w.objs p) { channel = record (w.objs p).channel { revents = 1 } } in
      let e = put_conn-at p c w in
      let (w₁, w₂, w₃, received, worked, signalled, woken, out, live₃) =
        answered fuel io thread p clock reads rest (arriving p w)
          (rw e (record { flagged = live.flagged; listed = live.listed })) (rw e open_) (rw e ready)
          (rw e idle_) (rw e other) none_ some_ goes pos text in
      (
        w₁,
        w₂,
        w₃,
        round-onmessage h cb idle (coming fuel clock reads rest) l p w w₁ received,
        worked,
        rw e at signalled,
        round-handlewakeup h cb idle 0 l w₂ w₃ (rw e at woken),
        rw e at out,
        live₃,
      )

  handle_message-alone :
      (io p : ℕ) (m : List ℕ) (w w' : State k)
      → w.outer.user.workers ≡ 0
      → send io p (c_str (io_prefix ++ m)) (length (io_prefix ++ m)) w ≡ ok w'
      → invoke_message (handlers (callbacks io)).onmessagecallback_ p m w ≡ ok (io_prefix ++ m, w')
  unfolding handlers TcpServer.onmessage callbacks handle_message on_message
  handle_message-alone io p m w w' none_ sent =
      rw (no_workers w.outer.user.workers none_, sent) refl
    where
      no_workers : (n : ℕ) → n ≡ 0 → (n == 0) ≡ true
      no_workers n e = ground arith

  -- A client of an echo server without workers sends bytes of which none is NUL, on a live, open
  -- connection with an empty input buffer. The loop's thread reads them and puts "IO thread " and
  -- the bytes behind what the connection has to send. The connection stays live.
  pub echo-answers_alone :
      (fuel io p : ℕ) (clock : ℕ → ℕ) (reads rest : List Read) (w : State k)
      → IsLive k laws p w
      → (w.objs p).disconnect ≡ false
      → (w.objs p).inputbuffer ≡ record { buf = []; sep = 0 }
      → isinloopthread io (w.loops (w.objs p).loop) ≡ true
      → w.outer.user.workers ≡ 0
      → GoesOn reads
      → 0 < length (bytes_of reads)
      → NulFree (bytes_of reads)
      → (w' : State k) × (onmessage
            (handlers (callbacks io))
            (suc (suc fuel))
            clock
            (reads ++ would_block ∷ rest)
            p
            w
          ≡ ok w')
        × ((w'.objs p).outputbuffer.buf
            ≡ (w.objs p).outputbuffer.buf ++ (io_prefix ++ bytes_of reads))
        × IsLive k laws p w'
  echo-answers_alone fuel io p clock reads rest w live open_ ready own none_ goes pos text =
      let m = io_prefix ++ bytes_of reads in
      let c = record (w.objs p) {
        inputbuffer = record { buf = []; sep = 0 };
        lasttime = clock 0;
      } in
      let v = reading p (clock 0) w in
      let (w', sent, out, kept, live') =
        reply-output_own k laws p io m c v (put_conn-at p c w)
          ((put_conn-keeps k laws p c w live refl refl).1) open_
          (NulFree-append io_prefix (bytes_of reads) (nul_free-NulFree io_prefix refl) text) own in
      (
        w',
        onmessage-delivers (handlers (callbacks io)) fuel clock reads rest p [] m w w' goes ready
            pos (handle_message-alone io p (bytes_of reads) v w' none_ sent)
            (ap (λ (b : Buffer). b.buf) kept),
        out,
        live',
      )
