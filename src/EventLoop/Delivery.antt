-- ===== src/EventLoop/Delivery.antt =====
-- From the threads that send to the socket: the task queue and the output buffer of one connection.
use reactor_server.Base.{
  ℕ, ◌≡◌, ◌≢◌, refl, sym, ap, subst, ◌∙◌, false, List, [], ◌∷◌, ◌++◌, append_assoc, append-nil,
  length, length-append, take, Outcome, ok, ◌>>=◌, arith,
}
use reactor_server.Connection.Defs.{Handlers, send}
use reactor_server.Connection.Stream.{regroup, flush-IsFlowing}
use reactor_server.Connection.Text.{NulFree, c_str, send-NulFree}
use reactor_server.Epoll.Kernel.{Kernel, Laws}
use reactor_server.EventLoop.Dispatch.{
  taking, waking, writing, round-handlewakeup, round-writecallback,
}
use reactor_server.Epoll.Defs.{returned}
use reactor_server.EventLoop.Defs.{isinloopthread, queueinloop, wakeup}
use reactor_server.EventLoop.Run.{wake, client, round}
use reactor_server.EventLoop.Tasks.{addressed}
use reactor_server.World.{Task, Loop, World, Call, invoke, put_loop, put_loop-at}
use reactor_server.EventLoop.Queue.{addressed-post, AllClients-append}
use reactor_server.EventLoop.Flow.{
  Delivers, Kept-Delivers, loop-Delivers, handlewakeup-Delivers, writing-Delivers, writing-output,
}

-- A thread sends a message; the loop wakes up; the socket is writable and takes so many bytes.
pub data Event : Type 0 where
  post : ℕ → List ℕ → Event
  woken : Event
  writable : ℕ → Event

-- The messages that the events send.
abbrev pub posted : List Event → List ℕ
posted [] = []
posted (post thread m ∷ es) = m ++ posted es
posted (woken ∷ es) = posted es
posted (writable n ∷ es) = posted es

-- Every sender is another thread than `io`, and its message has no NUL byte.
abbrev pub IsText : ℕ → Event → Type 0
IsText io (post thread m) = (io ≢ thread) × NulFree m
IsText io woken = Unit
IsText io (writable n) = Unit

abbrev pub AllText : ℕ → List Event → Type 0
AllText io [] = Unit
AllText io (e ∷ es) = IsText io e × AllText io es

module _ {k : Kernel} {S : Type 0} (h : Handlers k S) (cb idle : Call k S) where
  -- One event of the connection at `p`, on the loop `l`, with the bytes that it sends: a call of
  -- `send`, or a round of `run` that begins with EPOLLIN on the eventfd or EPOLLOUT on the socket.
  pub event : ℕ → ℕ → Event → World k S → Outcome (List ℕ × World k S)
  event l p (post thread m) w = do w' ← send thread p (c_str m) (length m) w; ok ([], w')
  event l p woken w = do
    w' ← round h cb idle (taking 0) l (returned ((wake, 1) ∷ [])) w
    ok ([], w')
  event l p (writable n) w = do
    w' ← round h cb idle (taking n) l (returned ((client p, 4) ∷ [])) w
    ok (take n (w.objs p).outputbuffer.buf, w')

  pub events : ℕ → ℕ → List Event → World k S → Outcome (List ℕ × World k S)
  unfolding event
  events l p [] w = ok ([], w)
  events l p (e ∷ es) w = do
    (sent, w') ← event l p e w
    (later, w'') ← events l p es w'
    ok (sent ++ later, w'')

posted-cons : (e : Event) (es : List Event) → posted (e ∷ es) ≡ posted (e ∷ []) ++ posted es
posted-cons (post thread m) es = rw append-nil refl
posted-cons woken es = refl
posted-cons (writable n) es = refl

module _ (k : Kernel) (laws : Laws k) {S : Type 0} (h : Handlers k S) (cb idle : Call k S)
    (l p io : ℕ) (quiet : (w : World k S) → invoke h.sendcompletecallback_ p w ≡ ok w) where
  post_elsewhere :
      (thread : ℕ) (w : World k S)
      → Delivers k laws h l p io quiet w
      → io ≢ thread
      → isinloopthread thread (w.loops l) ≡ false
  unfolding isinloopthread
  post_elsewhere thread w d ne = ground (arith, d.thread)

  post-queued :
      (thread : ℕ) (m : List ℕ) (w : World k S)
      → Delivers k laws h l p io quiet w
      → IsText io (post thread m)
      → send thread p (c_str m) (length m) w
        ≡ ok (
            put_loop l
              (queueinloop (record { target = p; block = c_str m; size = length m }) (w.loops l))
              w)
  post-queued thread m w d text =
      send-NulFree thread p m w text.1 d.open_
      ∙ rw (d.at_loop, post_elsewhere thread w d text.0) refl

  event-Delivers :
      (e : Event) (w : World k S)
      → Delivers k laws h l p io quiet w
      → IsText io e
      → (sent : List ℕ) × (w' : World k S) × (event h cb idle l p e w ≡ ok (sent, w'))
        × (sent ++ (w'.objs p).outputbuffer.buf ++ addressed p (w'.loops l).taskqueue
            ≡ (w.objs p).outputbuffer.buf ++ addressed p (w.loops l).taskqueue ++ posted (e ∷ []))
        × Delivers k laws h l p io quiet w'
  unfolding event queueinloop wakeup
  event-Delivers (post thread m) w d text =
      let fn : Task = record { target = p; block = c_str m; size = length m } in
      let x = queueinloop fn (w.loops l) in
      (
        [],
        put_loop l x w,
        rw (post-queued thread m w d text) refl,
        rw (put_loop-at l x w) (
            ap (◌++◌ (w.objs p).outputbuffer.buf) (addressed-post p m (w.loops l).taskqueue)
            ∙ sym (append_assoc _ (addressed p (w.loops l).taskqueue) (m ++ []))),
        loop-Delivers k laws h l p io quiet x w (λ j. laws.write_watched j (w.loops l).kernel) refl
            (AllClients-append (λ q. q ≡ p) (w.loops l).taskqueue (fn ∷ []) d.tasks
              (refl, omega (arith, length-append m (0 ∷ [])), tt))
            d,
      )
  event-Delivers woken w d text =
      let v = waking l w in
      let x = record (w.loops l) { wakechannel = record (w.loops l).wakechannel { revents = 1 } } in
      let dv : Delivers k laws h l p io quiet v =
        loop-Delivers k laws h l p io quiet x w (λ j. refl) refl d.tasks d in
      let (w', done, out, empty, d') = handlewakeup-Delivers k laws h l p io quiet v dv in
      (
        [],
        w',
        rw (round-handlewakeup h cb idle 0 l w w' done) refl,
        rw empty (
            ap (λ b. b ++ [])
              (out
                ∙ ap (λ (y : Loop k). (w.objs p).outputbuffer.buf ++ addressed p y.taskqueue)
                    (put_loop-at l x w))),
        d',
      )
  event-Delivers (writable n) w d text =
      let v = writing p w in
      let dv = writing-Delivers k laws h l p io quiet w d in
      let (w', done, out, f, kept) = flush-IsFlowing k laws h p quiet n v dv.flows in
      let (d', same) = Kept-Delivers k laws h l p io quiet v w' dv kept f in
      (
        take n (w.objs p).outputbuffer.buf,
        w',
        rw (round-writecallback h cb idle n l p w w' done) refl,
        rw same (
            ap (λ b. b ++ addressed p (w.loops l).taskqueue)
              (subst (λ b. take n b ++ (w'.objs p).outputbuffer.buf ≡ b)
                (writing-output k laws h l p io quiet w) out)
            ∙ sym (append-nil _)),
        d',
      )

  -- An open connection that its loop watches, where the loop's tasks are all for it and the
  -- callback for completed sends changes nothing. Threads other than the loop's send messages
  -- without a NUL byte, and rounds of the loop begin with a wakeup or with a writable socket, which
  -- takes some bytes, in whatever order. Nothing fails. The bytes that were sent, then those in the
  -- output buffer, then those in the task queue, are what the output buffer and the queue held at
  -- first and then the messages, in the order in which they were sent; and as long as the output
  -- buffer holds anything, the kernel watches the socket for writing.
  pub events-Delivers :
      (es : List Event) (w : World k S)
      → Delivers k laws h l p io quiet w
      → AllText io es
      → (sent : List ℕ) × (w' : World k S) × (events h cb idle l p es w ≡ ok (sent, w'))
        × (sent ++ (w'.objs p).outputbuffer.buf ++ addressed p (w'.loops l).taskqueue
            ≡ (w.objs p).outputbuffer.buf ++ addressed p (w.loops l).taskqueue ++ posted es)
        × Delivers k laws h l p io quiet w'
  unfolding events
  events-Delivers [] w d text = ([], w, refl, sym (append-nil _), d)
  events-Delivers (e ∷ es) w d text =
      let (sent, w₁, done, eq, d₁) = event-Delivers e w d text.0 in
      let (later, w₂, done', eq', d₂) = events-Delivers es w₁ d₁ text.1 in
      let o = (w.objs p).outputbuffer.buf ++ addressed p (w.loops l).taskqueue in
      let o₁ = (w₁.objs p).outputbuffer.buf ++ addressed p (w₁.loops l).taskqueue in
      let o₂ = (w₂.objs p).outputbuffer.buf ++ addressed p (w₂.loops l).taskqueue in
      (
        sent ++ later,
        w₂,
        rw (done, done') refl,
        append_assoc (sent ++ later) _ _
            ∙ regroup sent later o₁ o₂ o (posted (e ∷ [])) (posted es)
                (sym (append_assoc sent _ _) ∙ eq) (sym (append_assoc later _ _) ∙ eq')
            ∙ ap (◌++◌ o) (sym (posted-cons e es)),
        d₂,
      )
