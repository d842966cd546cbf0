-- ===== src/EchoServer/Workers/Order.antt =====
-- In what order the workers of an echo server leave replies to the loops, and that they come to an end.
use reactor_server.Base.{
  ℕ, zero, suc, ◌+◌, ◌≤◌, ◌<◌, ◌≡◌, refl, sym, ap, ◌∙◌, false, List, [], ◌∷◌, ◌++◌, length,
  length-append, pull-some, append_assoc, append-nil, arith, dec_lt, ◌⊎◌, inl, inr,
}
use reactor_server.EchoServer.Workers.{
  reply, pending, IsWorker, work-Worked, Works, start, then_, ran, one_more, own,
}
use reactor_server.Epoll.Kernel.{Kernel}
use reactor_server.EchoServer.Defs.{State}
use reactor_server.EventLoop.Defs.{isinloopthread}
use reactor_server.World.{Conn}
use mathlib.Core.List.{Perm, perm_append_comm}
use mathlib.Core.List.Perm

pending-append :
    (l : ℕ) (objs : ℕ → Conn) (q r : List (ℕ × List ℕ))
    → pending l objs (q ++ r) ≡ pending l objs q ++ pending l objs r
pending-append l objs [] r = refl
pending-append l objs ((p, m) ∷ q) r = ground (arith, pending-append l objs q r)

moved : {A : Type 0} (q x f b : List A) → Perm ((q ++ x) ++ (f ++ b)) (q ++ (f ++ (x ++ b)))
moved q x f b = rw (append_assoc q x (f ++ b)) (
    Perm.append_left q (
      rw (← append_assoc x f b, ← append_assoc f x b) (Perm.append_right b (perm_append_comm x f))))

no_front : {A : Type 0} (front back : List A) → length front ≡ 0 → front ++ back ≡ back
no_front [] back h = refl
no_front (x ∷ front) back h = absurd (omega (arith, h))

module _ {k : Kernel} where
  -- The workers run some of the tasks, in whatever order they come to. There is a list of the tasks
  -- that they ran, in that order, such that with those that are left it is a permutation of the tasks
  -- that there were, so that none is lost and none runs twice; each loop's queue has grown by the
  -- replies of the listed tasks for its open connections, in the order of the list. With at most one
  -- worker the tasks ran in the order in which they were added. Connections are left alone.
  pub Works-done :
      {w v : State k} (r : Works w v)
      → (done : List (ℕ × List ℕ)) × Perm (done ++ v.outer.user.tasks) w.outer.user.tasks
        × ((1 < w.outer.user.workers) ⊎ (done ++ v.outer.user.tasks ≡ w.outer.user.tasks))
        × ((l : ℕ) → (v.loops l).taskqueue ≡ (w.loops l).taskqueue ++ pending l w.objs done)
        × (ran r + length v.outer.user.tasks ≡ length w.outer.user.tasks)
        × (v.objs ≡ w.objs)
        × (v.outer.user.workers ≡ w.outer.user.workers)
  Works-done {w} start =
      ([], Perm.rfl, inr refl, λ l. sym (append-nil (w.loops l).taskqueue), omega arith, refl, refl)
  Works-done {w} (then_ {v = v} {v'} r j thread few in_range other e) =
      let (done, perm, same, queues, count, objs, crew) = Works-done r in
      let (p, m, front, back, at, place, worked) = one_more j thread v v' in_range other e in
      let x : List (ℕ × List ℕ) = (p, m) ∷ [] in
      let same' : (1 < w.outer.user.workers)
          ⊎ ((done ++ x) ++ v'.outer.user.tasks ≡ w.outer.user.tasks) =
        elim (dec_lt 1 w.outer.user.workers) [
          | yes many ↦ inl many
          | no one ↦
              let first : length front ≡ 0 = omega (arith, place, few, crew, one) in
              elim same [
                | inl many ↦ inl many
                | inr e' ↦ inr (
                    rw (worked.left, no_front front back first, append_assoc done x back)
                      (rw (at, no_front front (x ++ back) first) at e'))
              ]
        ] in
      (
        done ++ x,
        rw (worked.left) (Perm.trans (moved done x front back) (rw at at perm)),
        same',
        λ l.
            rw (worked.queued l, queues l, objs, pending-append l w.objs done x)
              (append_assoc (w.loops l).taskqueue (pending l w.objs done) (pending l w.objs x)),
        omega (
          arith,
          count,
          ap length at,
          ap length worked.left,
          length-append front ((p, m) ∷ back),
          length-append front back,
        ),
        worked.same_objs ∙ objs,
        worked.same_workers ∙ crew,
      )

  Works-IsWorker : {w v : State k} (thread : ℕ) → Works w v → IsWorker thread w → IsWorker thread v
  unfolding isinloopthread
  Works-IsWorker thread start other = other
  Works-IsWorker thread (then_ {v = v} {v'} r j io few in_range away e) other = λ q.
      let (p, m, front, back, at, place, worked) = one_more j io v v' in_range away e in
      rw (worked.same_objs, worked.same_thread (v.objs q).loop) (Works-IsWorker thread r other q)

  -- A worker that has a task to run can run it.
  goes_on :
      {w v : State k} (thread : ℕ) (r : Works w v)
      → 0 < w.outer.user.workers
      → IsWorker thread w
      → 0 < length v.outer.user.tasks
      → (v' : State k) × (s : Works w v') × (ran s ≡ suc (ran r))
  goes_on {w} {v} thread r some_ other more =
      let (done, perm, same, queues, count, objs, crew) = Works-done r in
      let other' = Works-IsWorker thread r other in
      let ((p, m), rest, found) = pull-some 0 v.outer.user.tasks more in
      let (v', worked, facts) = work-Worked 0 thread p m rest v other' found in
      (v', then_ r 0 thread (rw crew some_) more other' worked, refl)

  finish :
      (n : ℕ) {w v : State k} (thread : ℕ) (r : Works w v)
      → 0 < w.outer.user.workers
      → IsWorker thread w
      → length v.outer.user.tasks ≡ n
      → (u : State k) × Works w u × (u.outer.user.tasks ≡ [])
  finish zero {v = v} thread r some_ other e = (v, r, empty v.outer.user.tasks e)
    where
      empty : {A : Type 0} (xs : List A) → length xs ≡ 0 → xs ≡ []
      empty [] h = refl
      empty (x ∷ xs) h = absurd (omega (arith, h))
  finish (suc n) {v = v} thread r some_ other e =
      let (v', s, one_more_) = goes_on thread r some_ other (omega (arith, e)) in
      let (_, _, _, _, count, _, _) = Works-done r in
      let (_, _, _, _, count', _, _) = Works-done s in
      finish n thread s some_ other (omega (arith, e, one_more_, count, count'))

  -- With at least one worker, which runs no loop, the workers come to an end of any number of tasks:
  -- no run has more steps than there were tasks, and after any run the workers can go on to a state in
  -- which no task is left. No text of a message makes a run fail.
  pub Works-ends :
      {w v : State k} (thread : ℕ)
      → 0 < w.outer.user.workers
      → IsWorker thread w
      → (r : Works w v)
      → (ran r ≤ length w.outer.user.tasks)
        × ((u : State k) × Works v u × (u.outer.user.tasks ≡ []))
  Works-ends {w} {v} thread some_ other r =
      let (done, perm, same, queues, count, objs, crew) = Works-done r in
      (
        omega (arith, count),
        finish (length v.outer.user.tasks) thread start (rw crew some_)
            (Works-IsWorker thread r other) refl,
      )

  -- With more than one worker the order may change: of two tasks for one open connection the second
  -- may run first, so that the replies wait in the order opposite to that of the messages.
  pub Works-swaps :
      (w : State k) (thread p : ℕ) (m m' : List ℕ)
      → 1 < w.outer.user.workers
      → IsWorker thread w
      → w.outer.user.tasks ≡ (p, m) ∷ (p, m') ∷ []
      → (w.objs p).disconnect ≡ false
      → (v : State k) × Works w v
        × (v.outer.user.tasks ≡ [])
        × ((v.loops (w.objs p).loop).taskqueue
            ≡ (w.loops (w.objs p).loop).taskqueue ++ reply p m' ∷ reply p m ∷ [])
  Works-swaps w thread p m m' some_ other e is_open =
      let l = (w.objs p).loop in
      let (u, done, a) = work-Worked 1 thread p m' ((p, m) ∷ []) w other (rw e refl) in
      let first = then_ start 1 thread some_ (rw e (omega arith)) other done in
      let other' = Works-IsWorker thread first other in
      let (v, done', b) = work-Worked 0 thread p m [] u other' (rw (a.left) refl) in
      (
        v,
        then_ first 0 thread (rw (a.same_workers) (omega (arith, some_)))
            (rw (a.left) (omega arith)) other' done',
        b.left,
        rw
            (
              b.queued l,
              a.queued l,
              a.same_objs,
              own l p m [] w.objs is_open refl,
              own l p m' [] w.objs is_open refl,
            )
            (append_assoc (w.loops l).taskqueue (reply p m' ∷ []) (reply p m ∷ [])),
      )
