-- ===== src/EventLoop/Flow.antt =====
-- What the methods of a loop keep, for the one connection that its tasks are for.
use reactor_server.Base.{
  ℕ, ◌≡◌, refl, sym, ap, subst, ◌∙◌, false, List, [], ◌∷◌, ◌++◌, append_assoc, append-nil, take, ok,
  arith,
}
use reactor_server.Connection.Defs.{Handlers}
use reactor_server.Connection.Stream.{IsFlowing, Kept, give-IsFlowing}
use reactor_server.Epoll.Kernel.{Kernel, Laws}
use reactor_server.EventLoop.Dispatch.{writing}
use reactor_server.EventLoop.Run.{run_tasks, handlewakeup}
use reactor_server.EventLoop.Tasks.{addressed, AllClients}
use reactor_server.World.{Task, Conn, Loop, World, invoke, put_loop, put_conn-at, put_loop-at}
use reactor_server.EventLoop.Queue.{addressed-cons}

module _ (k : Kernel) (laws : Laws k) {S : Type 0} (h : Handlers k S) (l p io : ℕ)
    (quiet : (w : World k S) → invoke h.sendcompletecallback_ p w ≡ ok w) where
  open laws use {watched}

  -- The connection is open on the loop `l`, whose thread is `io`, and the tasks of the loop are
  -- for it.
  pub record Delivers (w : World k S) : Type 0 where
    pub flows : IsFlowing k laws h p quiet w
    pub at_loop : (w.objs p).loop ≡ l
    pub open_ : (w.objs p).disconnect ≡ false
    pub thread : (w.loops l).threadid ≡ io
    pub tasks : AllClients (λ q. q ≡ p) (w.loops l).taskqueue

  -- A change of the loop itself that keeps the interest list.
  loop-IsFlowing :
      (x : Loop k) (w : World k S)
      → ((j : ℕ) → watched x.kernel j ≡ watched (w.loops l).kernel j)
      → (w.objs p).loop ≡ l
      → IsFlowing k laws h p quiet w
      → IsFlowing k laws h p quiet (put_loop l x w)
  loop-IsFlowing x w keeps e f = record {
    live = record {
      flagged = f.live.flagged;
      listed = ground (arith, e, keeps (w.objs p).channel.fd, f.live.listed);
    };
    watched_for = f.watched_for;
  }

  pub Kept-Delivers :
      (w w' : World k S)
      → Delivers w
      → Kept p w w'
      → IsFlowing k laws h p quiet w'
      → Delivers w' × ((w'.loops l).taskqueue ≡ (w.loops l).taskqueue)
  Kept-Delivers w w' d kept f =
      let same = ap (λ (x : Loop k). x.taskqueue) (kept.same_rest l) in
      (
        record {
          flows = f;
          at_loop = kept.same_loop ∙ d.at_loop;
          open_ = kept.same_end ∙ d.open_;
          thread = ap (λ (x : Loop k). x.threadid) (kept.same_rest l) ∙ d.thread;
          tasks = subst (AllClients (λ q. q ≡ p)) (sym same) d.tasks;
        },
        same,
      )

  pub loop-Delivers :
      (x : Loop k) (w : World k S)
      → ((j : ℕ) → watched x.kernel j ≡ watched (w.loops l).kernel j)
      → x.threadid ≡ (w.loops l).threadid
      → AllClients (λ q. q ≡ p) x.taskqueue
      → Delivers w
      → Delivers (put_loop l x w)
  loop-Delivers x w keeps same all d = record {
    flows = loop-IsFlowing x w keeps d.at_loop d.flows;
    at_loop = d.at_loop;
    open_ = d.open_;
    thread = rw (put_loop-at l x w) (same ∙ d.thread);
    tasks = rw (put_loop-at l x w) all;
  }

  run_tasks-Delivers :
      (q : List Task) (w : World k S)
      → Delivers w
      → (w.loops l).taskqueue ≡ q
      → (w' : World k S) × (run_tasks q l w ≡ ok w')
        × ((w'.objs p).outputbuffer.buf ≡ (w.objs p).outputbuffer.buf ++ addressed p q)
        × ((w'.loops l).taskqueue ≡ [])
        × Delivers w'
  unfolding run_tasks
  run_tasks-Delivers [] w d e = (w, refl, sym (append-nil _), e, d)
  run_tasks-Delivers (fn ∷ q) w d e =
      let all : AllClients (λ q. q ≡ p) (fn ∷ q) = subst (AllClients (λ q. q ≡ p)) e d.tasks in
      let x = record (w.loops l) { taskqueue = q } in
      let d₀ = loop-Delivers x w (λ j. refl) refl all.2 d in
      let (w₁, done, out, f, kept) =
        give-IsFlowing k laws h p quiet fn.block fn.size (put_loop l x w) d₀.flows all.1 in
      let (d₁, same) = Kept-Delivers (put_loop l x w) w₁ d₀ kept f in
      let (w₂, done', out', empty, d₂) =
        run_tasks-Delivers q w₁ d₁ (same ∙ ap (λ (y : Loop k). y.taskqueue) (put_loop-at l x w)) in
      (
        w₂,
        rw (all.0, done) done',
        out'
            ∙ ap (λ b. b ++ addressed p q) out
            ∙ append_assoc _ (take fn.size fn.block) (addressed p q)
            ∙ ap (◌++◌ (w.objs p).outputbuffer.buf) (sym (addressed-cons p fn q all.0)),
        empty,
        d₂,
      )

  pub handlewakeup-Delivers :
      (w : World k S)
      → Delivers w
      → (w' : World k S) × (handlewakeup l w ≡ ok w')
        × ((w'.objs p).outputbuffer.buf
            ≡ (w.objs p).outputbuffer.buf ++ addressed p (w.loops l).taskqueue)
        × ((w'.loops l).taskqueue ≡ [])
        × Delivers w'
  unfolding handlewakeup
  handlewakeup-Delivers w d =
      let x = record (w.loops l) { kernel = k.read_event (w.loops l).kernel } in
      run_tasks-Delivers (w.loops l).taskqueue (put_loop l x w)
        (loop-Delivers x w (λ j. laws.read_watched j (w.loops l).kernel) refl d.tasks d)
        (ap (λ (y : Loop k). y.taskqueue) (put_loop-at l x w))

  -- What `epoll_wait` reports is noted in the channel of the connection.
  pub writing-Delivers : (w : World k S) → Delivers w → Delivers (writing p w)
  writing-Delivers w d = record {
    flows = record {
      live =
          rw (put_conn-at p (noted (w.objs p)) w)
            (record { flagged = d.flows.live.flagged; listed = d.flows.live.listed });
      watched_for = rw (put_conn-at p (noted (w.objs p)) w) d.flows.watched_for;
    };
    at_loop = rw (put_conn-at p (noted (w.objs p)) w) d.at_loop;
    open_ = rw (put_conn-at p (noted (w.objs p)) w) d.open_;
    thread = d.thread;
    tasks = d.tasks;
  }
    where
      noted : Conn → Conn
      noted c = record c { channel = record c.channel { revents = 4 } }

  pub writing-output :
      (w : World k S) → ((writing p w).objs p).outputbuffer.buf ≡ (w.objs p).outputbuffer.buf
  writing-output w = ap (λ (c : Conn). c.outputbuffer.buf) (put_conn-at p _ w)
