-- ===== src/EchoServer/Workers.antt =====
-- The workers of an echo server, and the tasks that they are given.
pub mod Order
pub mod Replies
use reactor_server.Base.{
  ℕ, zero, suc, ◌+◌, ◌≤◌, ◌<◌, ◌≡◌, refl, sym, ap, ◌∙◌, Bool, true, false, Bool-cases, Option, none,
  some, List, [], ◌∷◌, ◌++◌, length, length-append, pull, pull-parts, append_assoc, append-nil,
  ◌==◌, leb, if◌then◌else◌, ok, same_ok, subst, pull-some, arith, ℕ_discrete, ◌⊎◌, inl, inr,
}
use reactor_server.Connection.Defs.{strdup, send}
use reactor_server.Epoll.Kernel.{Kernel}
use reactor_server.EchoServer.Defs.{State, on_message, work}
use reactor_server.EventLoop.Defs.{isinloopthread, queueinloop, wakeup}
use reactor_server.World.{Task, Conn, World, put_loop}

-- What `strdup` makes of a message's text.
abbrev pub copied : List ℕ → List ℕ
copied [] = 0 ∷ []
copied (b ∷ m) = if b == 0 then b ∷ [] else b ∷ copied m

pub strdup-copied : (m : List ℕ) → strdup (m ++ 0 ∷ []) ≡ ok (copied m)
unfolding strdup
strdup-copied [] = refl
strdup-copied (b ∷ m) = ground (arith, strdup-copied m)

-- The task for a loop's thread that `OnMessage` leaves.
abbrev pub reply : ℕ → List ℕ → Task
reply p m = record { target = p; block = copied m; size = length m }

-- What the tasks of the pool will leave to a loop.
abbrev pub pending : ℕ → (ℕ → Conn) → List (ℕ × List ℕ) → List Task
pending l objs [] = []
pending l objs ((p, m) ∷ tasks) =
    if (objs p).disconnect
    then pending l objs tasks
    else if (objs p).loop == l
    then reply p m ∷ pending l objs tasks
    else pending l objs tasks

pub own :
    (l p : ℕ) (m : List ℕ) (tasks : List (ℕ × List ℕ)) (objs : ℕ → Conn)
    → (objs p).disconnect ≡ false
    → (objs p).loop ≡ l
    → pending l objs ((p, m) ∷ tasks) ≡ reply p m ∷ pending l objs tasks
own l p m tasks objs is_open e = ground (arith, is_open, e)

module _ {k : Kernel} where
  -- A worker is none of the threads that run the connections' loops.
  abbrev pub IsWorker : ℕ → State k → Type 0
  IsWorker thread w = (p : ℕ) → isinloopthread thread (w.loops (w.objs p).loop) ≡ false

  -- What the task at the place j, which is for the connection p, does.
  pub record Worked (p : ℕ) (m : List ℕ) (rest : List (ℕ × List ℕ)) (w v : State k) : Type 0 where
    pub same_objs : v.objs ≡ w.objs
    pub left : v.outer.user.tasks ≡ rest
    pub same_workers : v.outer.user.workers ≡ w.outer.user.workers
    pub same_threadnum : v.outer.threadnum ≡ w.outer.threadnum
    pub same_thread : (l : ℕ) → (v.loops l).threadid ≡ (w.loops l).threadid
    pub signalled :
        (l : ℕ)
        → (((v.loops l).kernel ≡ (w.loops l).kernel)
            × ((v.loops l).taskqueue ≡ (w.loops l).taskqueue))
          ⊎ ((v.loops l).kernel ≡ k.write_event (w.loops l).kernel)
    pub queued :
        (l : ℕ) → (v.loops l).taskqueue ≡ (w.loops l).taskqueue ++ pending l w.objs ((p, m) ∷ [])

  pub work-Worked :
      (j thread p : ℕ) (m : List ℕ) (rest : List (ℕ × List ℕ)) (w : State k)
      → IsWorker thread w
      → pull j w.outer.user.tasks ≡ some ((p, m), rest)
      → (v : State k) × (work j thread w ≡ ok v) × Worked p m rest w v
  unfolding work on_message send isinloopthread queueinloop wakeup
  work-Worked j thread p m rest w other found =
      let w₀ = record w {
        outer = record w.outer { user = record w.outer.user { tasks = rest } };
      } in
      elim (Bool-cases (w.objs p).disconnect) [
        | inl closed ↦ (
          w₀,
          rw (found, work, closed) refl,
          record {
            same_objs = refl;
            left = refl;
            same_workers = refl;
            same_threadnum = refl;
            same_thread = λ l. refl;
            signalled = λ l. inl (refl, refl);
            queued = λ l. rw closed (sym (append-nil (w.loops l).taskqueue));
          },
        )
        | inr is_open ↦ (
          put_loop (w.objs p).loop (queueinloop (reply p m) (w.loops (w.objs p).loop)) w₀,
          rw (found, work, is_open, other p, strdup-copied m) refl,
          record {
            same_objs = refl;
            left = refl;
            same_workers = refl;
            same_threadnum = refl;
            same_thread = λ l. ground arith;
            signalled = λ l. elim (ℕ_discrete l (w.objs p).loop) [
              | yes e ↦ inr (rw e (ground arith))
              | no ne ↦ inl (ground arith, ground arith)
            ];
            queued = λ l. ground (arith, is_open, append-nil (w.loops l).taskqueue);
          },
        )
      ]

  -- The workers run some of the tasks. The queue of tasks is a pool's, so that each task that runs is
  -- one of the first as many as there are workers.
  pub data Works (w : State k) : State k → Type 0 where
    start : Works w w
    then_ :
        {v v' : State k}
        → Works w v
        → (j thread : ℕ) → j < v.outer.user.workers
        → j < length v.outer.user.tasks
        → IsWorker thread v
        → work j thread v ≡ ok v'
        → Works w v'

  abbrev pub ran : {w v : State k} → Works w v → ℕ
  ran start = 0
  ran (then_ r j thread few in_range other e) = suc (ran r)

  -- What one more task changes.
  pub one_more :
      (j thread : ℕ) (v v' : State k)
      → j < length v.outer.user.tasks
      → IsWorker thread v
      → work j thread v ≡ ok v'
      → (p : ℕ) × (m : List ℕ) × (front back : List (ℕ × List ℕ)) × (v.outer.user.tasks
          ≡ front ++ (p, m) ∷ back)
        × (length front ≡ j)
        × Worked p m (front ++ back) v v'
  one_more j thread v v' in_range other e =
      let ((p, m), rest, found) = pull-some j v.outer.user.tasks in_range in
      let (front, back, at, left, place) = pull-parts j v.outer.user.tasks rest (p, m) found in
      let (u, done, worked) = work-Worked j thread p m rest v other found in
      (
        p,
        m,
        front,
        back,
        at,
        place,
        subst (λ r. Worked p m r v v') left (subst (Worked p m rest v) (same_ok done e) worked),
      )
