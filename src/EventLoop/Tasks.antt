-- ===== src/EventLoop/Tasks.antt =====
-- The task queue of a loop: what other threads ask to be sent is sent in the order of the requests.
use reactor_server.Base.{
  ℕ, ◌≤◌, ◌≡◌, ◌≢◌, refl, sym, ap, ◌∙◌, some, List, [], ◌∷◌, ◌++◌, append_assoc, append-nil, length,
  take, ◌==◌, if◌then◌else◌, ok, fault, exits, arith, ℕ_discrete,
}
use reactor_server.Connection.Close.{IsGone, close-IsGone, sendinloop-gone}
use reactor_server.Connection.Defs.{Handlers, closecallback}
use reactor_server.Connection.Live.{IsLive, Touched, Touched-same, Touched-IsLive, Touched-loop}
use reactor_server.Connection.Output.{queued, sendinloop-Touched}
use reactor_server.Epoll.Kernel.{Kernel, Laws}
use reactor_server.EventLoop.Run.{run_tasks, handlewakeup}
use reactor_server.World.{Task, Conn, Loop, World, put_loop}

-- What the tasks ask to be sent to the connection at `p`, in their order.
abbrev pub addressed : ℕ → List Task → List ℕ
addressed p [] = []
addressed p (fn ∷ q) = (if fn.target == p then take fn.size fn.block else []) ++ addressed p q

-- Every task is for a client, with a block of at least its size.
abbrev pub AllClients : (ℕ → Type 0) → List Task → Type 0
AllClients IsClient [] = Unit
AllClients IsClient (fn ∷ q) =
    IsClient fn.target × (fn.size ≤ length fn.block) × AllClients IsClient q

module _ (k : Kernel) (laws : Laws k) {S : Type 0} (IsClient : ℕ → Type 0) (l : ℕ) where
  open laws use {watched}

  -- The clients are live connections of the loop `l`, each with its own descriptor.
  pub record Serves (w : World k S) : Type 0 where
    pub at_loop : (p : ℕ) → IsClient p → (w.objs p).loop ≡ l
    pub live : (p : ℕ) → IsClient p → IsLive k laws p w
    pub distinct :
        (p q : ℕ) → IsClient p → IsClient q → p ≢ q → (w.objs p).channel.fd ≢ (w.objs q).channel.fd

  task-Serves :
      (p : ℕ) (c : Conn) (w w' : World k S)
      → Serves w
      → IsClient p
      → Touched k laws p c w w'
      → IsLive k laws p w'
      → Serves w'
  task-Serves p c w w' s client t live' = record {
    at_loop = λ q h. (Touched-same k laws t q).0 ∙ s.at_loop q h;
    live = λ q h. elim (ℕ_discrete q p) [
      | yes e ↦ rw e live'
      | no ne ↦
          Touched-IsLive k laws t q ne (s.at_loop q h ∙ sym (s.at_loop p client))
            (s.distinct q p h client ne) (s.live q h)
    ];
    distinct = λ q r hq hr ne e.
        s.distinct q r hq hr ne (sym (Touched-same k laws t q).1 ∙ e ∙ (Touched-same k laws t r).1);
  }

  -- Nor do they notice a change of the loop itself that keeps the interest list.
  pub loop-Serves :
      (x : Loop k) (w : World k S)
      → ((j : ℕ) → watched x.kernel j ≡ watched (w.loops l).kernel j)
      → Serves w
      → Serves (put_loop l x w)
  loop-Serves x w keeps s = record {
    at_loop = s.at_loop;
    live = λ p h. record {
      flagged = (s.live p h).flagged;
      listed = ground (arith, s.at_loop p h, keeps (w.objs p).channel.fd, (s.live p h).listed);
    };
    distinct = s.distinct;
  }

  task-output :
      (fn : Task) (w w' : World k S) (p : ℕ)
      → Touched k laws fn.target (queued fn.block fn.size (w.objs fn.target)) w w'
      → (w'.objs p).outputbuffer.buf
        ≡ (w.objs p).outputbuffer.buf ++ (if fn.target == p then take fn.size fn.block else [])
  task-output fn w w' p t = elim (ℕ_discrete p fn.target) [
    | yes e ↦ rw (e, t.now) (ground arith)
    | no ne ↦ rw (t.elsewhere p ne) (ground (arith, append-nil (w.objs p).outputbuffer.buf))
  ]

  -- The tasks of a queue, and each connection's output before and after them.
  pub run_tasks-output :
      (q : List Task) (w : World k S)
      → Serves w
      → AllClients IsClient q
      → (w.loops l).taskqueue ≡ q
      → (w' : World k S) × (run_tasks q l w ≡ ok w')
        × ((p : ℕ)
            → IsClient p
            → (w'.objs p).outputbuffer.buf ≡ (w.objs p).outputbuffer.buf ++ addressed p q)
        × ((w'.loops l).taskqueue ≡ [])
        × Serves w'
  unfolding run_tasks
  run_tasks-output [] w s all e = (w, refl, λ p h. sym (append-nil _), e, s)
  run_tasks-output (fn ∷ q) w s all e =
      let w₀ = put_loop l (record (w.loops l) { taskqueue = q }) w in
      let s₀ = loop-Serves (record (w.loops l) { taskqueue = q }) w (λ j. refl) s in
      let (w₁, done, t, live₁) =
        sendinloop-Touched k laws fn.target fn.block fn.size w₀ (s₀.live fn.target all.0) all.1 in
      let s₁ = task-Serves fn.target _ w₀ w₁ s₀ all.0 t live₁ in
      let left : (w₁.loops l).taskqueue ≡ q =
        ap (λ (x : Loop k). x.taskqueue) (Touched-loop k laws t l) ∙ ground arith in
      let (w₂, done', out, empty, s₂) = run_tasks-output q w₁ s₁ all.2 left in
      (
        w₂,
        rw done done',
        λ p h.
            out p h
            ∙ ap (λ b. b ++ addressed p q) (task-output fn w₀ w₁ p t)
            ∙ append_assoc (w.objs p).outputbuffer.buf _ (addressed p q),
        empty,
        s₂,
      )

  -- A wakeup of a loop whose tasks are all for live connections of that loop, each with its own
  -- descriptor, and hold blocks of at least their stated size. The loop's thread runs the tasks in
  -- their order: the output of each of those connections grows by what the tasks ask to be sent to
  -- it, the queue is empty afterwards, and the connections are live as before.
  pub handlewakeup-output :
      (w : World k S)
      → Serves w
      → AllClients IsClient (w.loops l).taskqueue
      → (w' : World k S) × (handlewakeup l w ≡ ok w')
        × ((p : ℕ)
            → IsClient p
            → (w'.objs p).outputbuffer.buf
              ≡ (w.objs p).outputbuffer.buf ++ addressed p (w.loops l).taskqueue)
        × ((w'.loops l).taskqueue ≡ [])
        × Serves w'
  unfolding handlewakeup
  handlewakeup-output w s all =
      let x = record (w.loops l) { kernel = k.read_event (w.loops l).kernel } in
      run_tasks-output (w.loops l).taskqueue (put_loop l x w)
        (loop-Serves x w (λ j. laws.read_watched j (w.loops l).kernel) s) all (ground arith)

module _ (k : Kernel) (laws : Laws k) {S : Type 0} where
  open laws use {watched}

  loop-IsGone :
      (p l : ℕ) (x : Loop k) (w : World k S)
      → ((j : ℕ) → watched x.kernel j ≡ watched (w.loops l).kernel j)
      → IsGone k laws p w
      → IsGone k laws p (put_loop l x w)
  loop-IsGone p l x w keeps gone = record {
    flagged = gone.flagged;
    unlisted = ground (arith, keeps (w.objs p).channel.fd, gone.unlisted);
  }

  run_tasks-gone :
      (l : ℕ) (fn : Task) (q : List Task) (w : World k S)
      → IsGone k laws fn.target w
      → fn.size ≤ length fn.block
      → run_tasks (fn ∷ q) l w ≡ fault exits
  unfolding run_tasks
  run_tasks-gone l fn q w gone h = rw (
      sendinloop-gone k laws fn.target fn.block fn.size
        (put_loop l (record (w.loops l) { taskqueue = q }) w)
        (loop-IsGone fn.target l (record (w.loops l) { taskqueue = q }) w (λ j. refl) gone) h)

  -- A task for a connection that was closed, when it comes first.
  pub handlewakeup-gone :
      (l : ℕ) (fn : Task) (q : List Task) (w : World k S)
      → IsGone k laws fn.target w
      → (w.loops l).taskqueue ≡ fn ∷ q
      → fn.size ≤ length fn.block
      → handlewakeup l w ≡ fault exits
  unfolding handlewakeup
  handlewakeup-gone l fn q w gone e h =
      let x = record (w.loops l) { kernel = k.read_event (w.loops l).kernel } in
      ap (λ r. run_tasks r l (put_loop l x w)) (ground arith ∙ e)
      ∙ run_tasks-gone l fn q (put_loop l x w)
          (loop-IsGone fn.target l x w (λ j. laws.read_watched j (w.loops l).kernel) gone) h

  -- A live connection is closed, by a callback of the server that changes its own state at most,
  -- while a task for it comes first in the queue of the loop. At the next wakeup the process ends.
  pub handlewakeup-after_close :
      (h : Handlers k S) (l : ℕ) (w : World k S) (fn : Task) (q : List Task) (f : ℕ → S → S)
      → IsLive k laws fn.target w
      → (w.loops l).taskqueue ≡ fn ∷ q
      → fn.size ≤ length fn.block
      → h.closecallback_ ≡ some (λ r v. ok (record v { outer = f r v.outer }))
      → (w' : World k S) × (closecallback h fn.target w ≡ ok w') × (handlewakeup l w' ≡ fault exits)
  handlewakeup-after_close h l w fn q f live e es ef =
      let (w₁, done, done', t, gone) = close-IsGone k laws h fn.target w live in
      let w₂ = record w₁ { outer = f fn.target w₁.outer } in
      let queue : (w₂.loops l).taskqueue ≡ fn ∷ q =
        ap (λ (x : Loop k). x.taskqueue) (Touched-loop k laws t l) ∙ e in
      (w₂, done ∙ rw ef, handlewakeup-gone l fn q w₂ gone queue es)
