-- ===== src/EchoServer/Workers/Replies.antt =====
-- What the clients of a loop get from the workers.
use reactor_server.Base.{
  true, ℕ, ◌≤◌, ◌≡◌, ◌<◌, ◌⊎◌, inl, inr, refl, sym, ap, ◌∙◌, append-nil, false, List, [], ◌∷◌, ◌++◌,
  length, length-append, take, take-append, ◌==◌, if◌then◌else◌, ok, arith,
}
use reactor_server.Connection.Text.{NulFree}
use reactor_server.EchoServer.Defs.{State}
use reactor_server.EchoServer.Workers.{copied, own, pending, Works, start, then_, one_more}
use reactor_server.EchoServer.Workers.Order.{Works-done}
use reactor_server.Epoll.Kernel.{Kernel, Laws}
use reactor_server.EventLoop.Dispatch.{waking}
use reactor_server.EventLoop.Run.{handlewakeup}
use reactor_server.EventLoop.Tasks.{addressed, AllClients, Serves, loop-Serves, handlewakeup-output}
use reactor_server.World.{Conn, Loop, put_loop-at}
use mathlib.Core.List.{Perm, Mem, mem-cons_self, mem-cons_of_mem}
use mathlib.Core.List.Perm

-- The texts that the tasks are to send to a client.
abbrev pub texts : ℕ → List (ℕ × List ℕ) → List ℕ
texts p [] = []
texts p ((q, m) ∷ tasks) = (if q == p then m else []) ++ texts p tasks

-- Every task is for an open client, and its text has no NUL byte.
abbrev pub AllTexts : (ℕ → Type 0) → List (ℕ × List ℕ) → Type 0
AllTexts IsClient tasks = (x : ℕ × List ℕ) → Mem x tasks → IsClient (x.0) × NulFree (x.1)

copied-NulFree : (m : List ℕ) → NulFree m → copied m ≡ m ++ 0 ∷ []
copied-NulFree [] h = refl
copied-NulFree (b ∷ m) h = ground (arith, copied-NulFree m h.1, h.0)

-- What `OnMessage` asks to be sent of a text.
take-copied : (m : List ℕ) → NulFree m → take (length m) (copied m) ≡ m
take-copied m h = rw (copied-NulFree m h) (take-append m (0 ∷ []))

length-copied : (m : List ℕ) → NulFree m → length m ≤ length (copied m)
length-copied m h = rw (copied-NulFree m h) (omega (arith, length-append m (0 ∷ [])))

module _ (IsClient : ℕ → Type 0) (l : ℕ) (objs : ℕ → Conn)
    (open_ : (q : ℕ) → IsClient q → ((objs q).disconnect ≡ false) × ((objs q).loop ≡ l)) where
  pending-AllClients :
      (tasks : List (ℕ × List ℕ))
      → AllTexts IsClient tasks
      → AllClients IsClient (pending l objs tasks)
  pending-AllClients [] h = tt
  pending-AllClients ((p, m) ∷ tasks) h =
      let (client, text) = h (p, m) mem-cons_self in
      let (is_open, at_loop) = open_ p client in
      rw (own l p m tasks objs is_open at_loop) (
        client,
        length-copied m text,
        pending-AllClients tasks (λ x t. h x (mem-cons_of_mem (p, m) t)),
      )

  pending-none :
      (tasks : List (ℕ × List ℕ)) → AllTexts IsClient tasks → pending l objs tasks ≡ [] → tasks ≡ []
  pending-none [] h e = refl
  pending-none ((p, m) ∷ tasks) h e =
      let (is_open, at_loop) = open_ p (h (p, m) mem-cons_self).0 in
      absurd (not_nil (sym (own l p m tasks objs is_open at_loop) ∙ e))
    where
      not_nil : {A : Type 0} {x : A} {xs : List A} → x ∷ xs ≡ [] → ⊥
      not_nil f = cc

  addressed-pending :
      (p : ℕ) (tasks : List (ℕ × List ℕ))
      → AllTexts IsClient tasks
      → addressed p (pending l objs tasks) ≡ texts p tasks
  addressed-pending p [] h = refl
  addressed-pending p ((q, m) ∷ tasks) h =
      let (client, text) = h (q, m) mem-cons_self in
      let (is_open, at_loop) = open_ q client in
      rw
        (
          own l q m tasks objs is_open at_loop,
          take-copied m text,
          addressed-pending p tasks (λ x t. h x (mem-cons_of_mem (q, m) t)),
        )
        refl

module _ (k : Kernel) (laws : Laws k) where
  open laws use {watched}

  Works-watched :
      {w v : State k} (l j : ℕ)
      → Works w v
      → watched (v.loops l).kernel j ≡ watched (w.loops l).kernel j
  Works-watched l j start = refl
  Works-watched {w = w} l j (then_ {v = v} {v'} r i thread few in_range other e) =
      let (p, m, front, back, at, place, worked) = one_more i thread v v' in_range other e in
      elim (worked.signalled l) [
        | inl (same, _) ↦ rw same (Works-watched l j r)
        | inr wrote ↦ rw wrote (laws.write_watched j (v.loops l).kernel ∙ Works-watched l j r)
      ]

  -- A loop that got a task is to wake up.
  Works-pending :
      {w v : State k} (l : ℕ)
      → Works w v
      → ((v.loops l).taskqueue ≡ (w.loops l).taskqueue) ⊎ (laws.pending (v.loops l).kernel ≡ true)
  Works-pending l start = inl refl
  Works-pending l (then_ {v = v} {v'} r i thread few in_range other e) =
      let (p, m, front, back, at, place, worked) = one_more i thread v v' in_range other e in
      elim (worked.signalled l) [
        | inr wrote ↦ inr (rw wrote (laws.write_pending (v.loops l).kernel))
        | inl (same, no_task) ↦ elim (Works-pending l r) [
          | inl none_ ↦ inl (no_task ∙ none_)
          | inr waits ↦ inr (rw same waits)
        ]
      ]

  Works-Serves :
      {w v : State k} (IsClient : ℕ → Type 0) (l : ℕ)
      → Works w v
      → Serves k laws IsClient l w
      → Serves k laws IsClient l v
  Works-Serves {w} {v} IsClient l r s =
      let (done, perm, same, queues, count, objs, crew) = Works-done r in
      record {
        at_loop = λ p h. rw objs (s.at_loop p h);
        live = λ p h. record {
          flagged = rw objs (s.live p h).flagged;
          listed =
              rw (objs, Works-watched (w.objs p).loop (w.objs p).channel.fd r) (s.live p h).listed;
        };
        distinct = λ p q hp hq ne. rw objs (s.distinct p q hp hq ne);
      }

  -- All clients of whom an echo server's workers have tasks are served by one loop: they are open
  -- and live, each with its own descriptor; no other task waits in the loop, and no text of a task
  -- has a NUL byte. When the workers have run all tasks, in whatever order they came to, the loop's
  -- eventfd is readable, unless there was no task; a wakeup of the loop returns, and there is one
  -- order of the tasks such that the output of each of these clients has grown by the texts of its
  -- tasks, whole and in that order. With at most one worker that is the order in which the tasks
  -- were added. The connections are live as before.
  pub Works-replies :
      {w v : State k} (IsClient : ℕ → Type 0) (l : ℕ)
      → Works w v
      → v.outer.user.tasks ≡ []
      → (w.loops l).taskqueue ≡ []
      → Serves k laws IsClient l w
      → ((q : ℕ) → IsClient q → (w.objs q).disconnect ≡ false)
      → AllTexts IsClient w.outer.user.tasks
      → (v' : State k) × ((w.outer.user.tasks ≡ []) ⊎ (laws.pending (v.loops l).kernel ≡ true))
        × (handlewakeup l (waking l v) ≡ ok v')
        × ((done : List (ℕ × List ℕ)) × Perm done w.outer.user.tasks
            × ((1 < w.outer.user.workers) ⊎ (done ≡ w.outer.user.tasks))
            × ((p : ℕ)
                → IsClient p
                → (v'.objs p).outputbuffer.buf ≡ (w.objs p).outputbuffer.buf ++ texts p done))
        × Serves k laws IsClient l v'
  Works-replies {w} {v} IsClient l r none_ empty s is_open all =
      let (done, perm, same, queues, count, objs, crew) = Works-done r in
      let open_ : (q : ℕ) → IsClient q → ((w.objs q).disconnect ≡ false) × ((w.objs q).loop ≡ l) =
        λ q h. (is_open q h, s.at_loop q h) in
      let every : done ++ v.outer.user.tasks ≡ done = rw none_ (append-nil done) in
      let perm' : Perm done w.outer.user.tasks = rw every at perm in
      let queue : ((waking l v).loops l).taskqueue ≡ pending l w.objs done =
        ap (λ (x : Loop k). x.taskqueue) (put_loop-at l _ v) ∙ rw empty at (queues l) in
      let texts_ : AllTexts IsClient done = λ x t. all x ((Perm.mem_iff perm').0 t) in
      let (v', returned, out, left, s') =
        handlewakeup-output k laws IsClient l (waking l v)
          (loop-Serves k laws IsClient l _ v (λ j. refl) (Works-Serves IsClient l r s))
          (rw queue (pending-AllClients IsClient l w.objs open_ done texts_)) in
      let woken : ((w.outer.user.tasks ≡ []) ⊎ (laws.pending (v.loops l).kernel ≡ true)) =
        elim (Works-pending l r) [
          | inr waits ↦ inr waits
          | inl same_queue ↦
              let no_reply : pending l w.objs done ≡ [] =
                sym (rw empty at (queues l)) ∙ (same_queue ∙ empty) in
              let no_task = pending-none IsClient l w.objs open_ done texts_ no_reply in
              inl (Perm.eq-nil (Perm.symm (rw no_task at perm')))
        ] in
      (
        v',
        woken,
        returned,
        (
          done,
          perm',
          elim same [ inl many ↦ inl many | inr e ↦ inr (sym every ∙ e) ],
          λ p h.
              rw (out p h, queue, objs, addressed-pending IsClient l w.objs open_ p done texts_)
                refl,
        ),
        s',
      )
