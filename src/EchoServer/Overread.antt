-- ===== src/EchoServer/Overread.antt =====
-- Messages with a NUL byte inside, such as those of client.cpp, at an echo server.
use reactor_server.Base.{
  true, ℕ, zero, suc, ◌<◌, ◌≡◌, refl, ap, ◌∙◌, false, List, [], ◌∷◌, ◌++◌, append_assoc, length,
  length-append, ok, fault, undefined, arith,
}
use reactor_server.Client.{text, request}
use reactor_server.Connection.Defs.{would_block, onmessage, send, Read}
use reactor_server.Connection.Input.{GoesOn, bytes_of, onmessage-delivers}
use reactor_server.Connection.Text.{NulFree, c_str, send-nul_other, sendinloop-short}
use reactor_server.EchoServer.Defs.{State, work_prefix, add_task, callbacks, work}
use reactor_server.EchoServer.Reply.{NulFree-append, nul_free-NulFree}
use reactor_server.EchoServer.Way.{reading, no_tasks, handle_message-worker, work-add_task}
use reactor_server.Epoll.Kernel.{Kernel, Laws}
use reactor_server.EventLoop.Defs.{isinloopthread, queueinloop, wakeup}
use reactor_server.EventLoop.Dispatch.{waking}
use reactor_server.EventLoop.Run.{run_tasks, handlewakeup}
use reactor_server.TcpServer.Defs.{handlers}
use reactor_server.World.{Task, Conn, World, put_loop, put_conn-at}

longer : (u v : List ℕ) → 0 < length v → length (c_str u) < length (u ++ 0 ∷ v)
longer u v h = omega (arith, length-append u (0 ∷ v), length-append u (0 ∷ []))

prefixed : (pre bytes u v : List ℕ) → bytes ≡ u ++ 0 ∷ v → pre ++ bytes ≡ (pre ++ u) ++ 0 ∷ v
prefixed pre bytes u v e = rw (append_assoc pre u (0 ∷ v)) (ap (◌++◌ pre) e)

module _ {k : Kernel} {S : Type 0} where
  -- A first task that asks for more than its block has.
  handlewakeup-short :
      (l : ℕ) (fn : Task) (q : List Task) (w : World k S)
      → (w.loops l).taskqueue ≡ fn ∷ q
      → length fn.block < fn.size
      → handlewakeup l w ≡ fault undefined
  unfolding handlewakeup run_tasks
  handlewakeup-short l fn q w e short =
      rw (e, sendinloop-short fn.target fn.block fn.size _ short) refl

module _ {k : Kernel} (laws : Laws k) {S : Type 0} where
  -- A worker sends a message with a NUL byte inside, to an open connection whose loop has no other
  -- task: the loop's eventfd is readable, and the wakeup of the loop reads behind the copy.
  short-reply :
      (thread p : ℕ) (m u v : List ℕ) (c : Conn) (w : World k S)
      → m ≡ u ++ 0 ∷ v
      → w.objs p ≡ c
      → c.disconnect ≡ false
      → NulFree u
      → 0 < length v
      → isinloopthread thread (w.loops c.loop) ≡ false
      → (w.loops c.loop).taskqueue ≡ []
      → (w' : World k S) × (send thread p (c_str m) (length m) w ≡ ok w')
        × (laws.pending (w'.loops c.loop).kernel ≡ true)
        × (handlewakeup c.loop (waking c.loop w') ≡ fault undefined)
  unfolding queueinloop wakeup
  short-reply thread p m u v c w em e open_ text_ more other empty =
      let fn : Task = record { target = p; block = c_str u; size = length (u ++ 0 ∷ v) } in
      let w' = put_loop c.loop (queueinloop fn (w.loops c.loop)) w in
      let queue : ((waking c.loop w').loops c.loop).taskqueue ≡ fn ∷ [] = ground (arith, empty) in
      (
        w',
        rw em (send-nul_other thread p u v w text_ (rw e open_) (rw e other) ∙ rw e refl),
        ground (arith, laws.write_pending (w.loops c.loop).kernel),
        handlewakeup-short c.loop fn [] (waking c.loop w') queue (longer u v more),
      )

module _ (k : Kernel) (laws : Laws k) where
  -- The same, of what a client sent.
  overread-worker :
      (fuel io thread p : ℕ) (clock : ℕ → ℕ) (reads rest : List Read) (u v : List ℕ) (w : State k)
      → (w.objs p).disconnect ≡ false
      → (w.objs p).inputbuffer ≡ record { buf = []; sep = 0 }
      → (w.loops (w.objs p).loop).taskqueue ≡ []
      → isinloopthread thread (w.loops (w.objs p).loop) ≡ false
      → w.outer.user.tasks ≡ []
      → 0 < w.outer.user.workers
      → GoesOn reads
      → bytes_of reads ≡ u ++ 0 ∷ v
      → NulFree u
      → 0 < length v
      → (w₁ : State k) × (w₂ : State k) × (onmessage
            (handlers (callbacks io))
            (suc (suc fuel))
            clock
            (reads ++ would_block ∷ rest)
            p
            w
          ≡ ok w₁)
        × (work 0 thread w₁ ≡ ok w₂)
        × (laws.pending (w₂.loops (w.objs p).loop).kernel ≡ true)
        × (handlewakeup (w.objs p).loop (waking (w.objs p).loop w₂) ≡ fault undefined)
  unfolding add_task
  overread-worker fuel io thread p clock reads rest u v w open_ ready idle other none_ some_ goes e
        text_ more =
      let m = work_prefix ++ bytes_of reads in
      let x = reading k laws p (clock 0) w in
      let c = record (w.objs p) {
        inputbuffer = record { buf = []; sep = 0 };
        lasttime = clock 0;
      } in
      let (w₂, sent, signalled, woken) =
        short-reply laws thread p m (work_prefix ++ u) v c (no_tasks k laws x)
          (prefixed work_prefix (bytes_of reads) u v e) (put_conn-at p c w) open_
          (NulFree-append work_prefix u (nul_free-NulFree work_prefix refl) text_) more other
          idle in
      (
        add_task p m x,
        w₂,
        onmessage-delivers (handlers (callbacks io)) fuel clock reads rest p [] m w (add_task p m x)
            goes ready (rw e (omega (arith, length-append u (0 ∷ v))))
            (handle_message-worker k laws io p (bytes_of reads) x some_)
            (ap (λ (d : Conn). d.inputbuffer.buf) (put_conn-at p c w)),
        work-add_task k laws thread p m x none_ ∙ sent,
        signalled,
        woken,
      )

-- A request is its length, which is below 256, three NUL bytes, and the text.
request-parts : (ii : ℕ) → ii < 2 → request ii ≡ (28 ∷ []) ++ 0 ∷ (0 ∷ 0 ∷ text ii)
unfolding request text
request-parts zero h = refl
request-parts (suc zero) h = refl
request-parts (suc (suc ii)) h = absurd (omega arith)

module _ (k : Kernel) (laws : Laws k) where
  -- The bundled client sends one of its two requests to an echo server with workers, on an open
  -- connection with an empty input buffer, and there is no other task in the pool or in the loop. The
  -- loop's thread reads the request and gives the pool a task, a worker, another thread, runs it,
  -- which makes the loop's eventfd readable, and at the wakeup the loop's thread reads behind the copy
  -- of the reply, which has no meaning.
  pub client-overread :
      (ii fuel io thread p : ℕ) (clock : ℕ → ℕ) (reads rest : List Read) (w : State k)
      → ii < 2
      → bytes_of reads ≡ request ii
      → GoesOn reads
      → (w.objs p).disconnect ≡ false
      → (w.objs p).inputbuffer ≡ record { buf = []; sep = 0 }
      → (w.loops (w.objs p).loop).taskqueue ≡ []
      → isinloopthread thread (w.loops (w.objs p).loop) ≡ false
      → w.outer.user.tasks ≡ []
      → 0 < w.outer.user.workers
      → (w₁ : State k) × (w₂ : State k) × (onmessage
            (handlers (callbacks io))
            (suc (suc fuel))
            clock
            (reads ++ would_block ∷ rest)
            p
            w
          ≡ ok w₁)
        × (work 0 thread w₁ ≡ ok w₂)
        × (laws.pending (w₂.loops (w.objs p).loop).kernel ≡ true)
        × (handlewakeup (w.objs p).loop (waking (w.objs p).loop w₂) ≡ fault undefined)
  client-overread ii fuel io thread p clock reads rest w h e goes open_ ready idle other none_
        some_ =
      overread-worker k laws fuel io thread p clock reads rest (28 ∷ []) (0 ∷ 0 ∷ text ii) w open_
        ready idle other none_ some_ goes (e ∙ request-parts ii h) ((λ z. omega (arith, z)), tt)
        (omega arith)
