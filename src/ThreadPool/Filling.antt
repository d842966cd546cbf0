-- ===== src/ThreadPool/Filling.antt =====
-- What a pool comes to when no task returns: tasks are started until every worker runs one.
use reactor_server.Base.{
  ℕ, suc, ◌+◌, ◌*◌, ◌≤◌, ◌<◌, ◌≡◌, ◌≢◌, ◌⊎◌, inl, inr, refl, true, false, List, [], ◌∷◌, ◌++◌,
  length, ◌-◌, length-append, dec_lt, ap, append-nil, arith, ◌∙◌, sym,
}
use reactor_server.ThreadPool.Accounting.{started-finished, length-weight, in_hands-full}
use reactor_server.ThreadPool.Invariant.{Inv, Reach-Inv, active}
use reactor_server.ThreadPool.Moves.{actor, guard}
use reactor_server.ThreadPool.Roused.{rousing, Reach-Roused}
use reactor_server.ThreadPool.Safety.{alone, Advances, in_task, active_goes_on, notify_goes_on}
use reactor_server.ThreadPool.System.{
  Pc, head, enter, check, park, blocked, woken, ready, running, exited, System, not_called, Step,
  push, raise, Reach, here, next,
}
use reactor_server.ThreadPool.Totals.{total, total-update, total-positive, workers-cases}

module _ {A : Type 0} where
  abbrev pub AllInTask : ℕ → System A → Type 0
  AllInTask n s = (i : ℕ) → i < n → in_task (s.pc i) ≡ true

  -- How many steps a worker has left at most, up to the start of a task, when a notification counts for
  -- four.
  abbrev pub way : Pc A → ℕ
  way exited = 0
  way (running x) = 1
  way blocked = 2
  way park = 3
  way ready = 3
  way check = 4
  way enter = 5
  way woken = 5
  way head = 6

  abbrev pub bound : ℕ → System A → ℕ
  bound n s = total way n s.pc + 4 * s.owed

  -- A run with no call of `addtask` or `Stop`, no spurious wakeup, and no return of a task.
  pub data Alone (n : ℕ) (s : System A) : System A → Type 0 where
    start : Alone n s s
    then_ : {t u : System A} → Alone n s t → (st : Step n t u) → alone st ≡ true → Alone n s u

  pub moves : {n : ℕ} {s t : System A} → Alone n s t → ℕ
  moves start = 0
  moves (then_ r st a) = suc (moves r)

  Reach-not_called : {n : ℕ} {s : System A} → Reach n s → s.stop ≡ false → s.stopper ≡ not_called
  Reach-not_called here f = refl
  Reach-not_called (next r (raise e)) f = cc
  Reach-not_called (next r st) f = ground (arith, guard st, Reach-not_called r)

  Step-stop : {n : ℕ} {s t : System A} (st : Step n s t) → alone st ≡ true → t.stop ≡ s.stop
  Step-stop (raise e) a = cc
  Step-stop st a = refl

  Step-submitted :
      {n : ℕ} {s t : System A} (st : Step n s t) → alone st ≡ true → t.submitted ≡ s.submitted
  Step-submitted (push x e) a = cc
  Step-submitted st a = refl

  Step-bound :
      {n : ℕ} {s t : System A}
      → s.stop ≡ false
      → s.stopper ≡ not_called
      → (st : Step n s t) → alone st ≡ true
      → bound n t < bound n s
  unfolding actor
  Step-bound f c (push x e) a = cc
  Step-bound {n} {s} {t} f c st a =
      ground (arith, guard st, total-update way n s.pc (actor st) (t.pc (actor st)))

  in_task-cases : (p : Pc A) → (in_task p ≡ false) ⊎ (in_task p ≡ true)
  in_task-cases (running x) = inr refl
  in_task-cases p = inl refl

  idle-active :
      (p : Pc A) → in_task p ≡ false → (p ≡ blocked) ⊎ (p ≡ exited) ⊎ (p ≡ park) ⊎ (active p ≡ true)
  idle-active blocked h = inl refl
  idle-active exited h = inr (inl refl)
  idle-active park h = inr (inr (inl refl))
  idle-active (running x) h = cc
  idle-active p h = inr (inr (inr refl))

  rousing-active : (p : Pc A) → 0 < rousing p → (active p ≡ true) × (in_task p ≡ false)
  rousing-active head h = (refl, refl)
  rousing-active enter h = (refl, refl)
  rousing-active check h = (refl, refl)
  rousing-active woken h = (refl, refl)
  rousing-active ready h = (refl, refl)
  rousing-active p h = absurd (omega (arith, h))

  module _ {n : ℕ} {s : System A} (r : Reach n s) (f : s.stop ≡ false) where
    queue-Advances : (x : A) (q : List A) → s.queue ≡ x ∷ q → AllInTask n s ⊎ Advances n s
    queue-Advances x q e = elim (workers-cases (λ i. in_task-cases (s.pc i)) n) [
      | inr all ↦ inl all
      | inl (i, lt, out) ↦ inr (elim (idle-active (s.pc i) out) [
        | inl asleep ↦ roused i lt asleep
        | inr (inl left) ↦ absurd (inv.alive i f left)
        | inr (inr (inl parks)) ↦ absurd (full (inv.parked i parks))
        | inr (inr (inr a)) ↦ active_goes_on inv x q i lt e f (s.pc i) refl a out
      ])
    ]
      where
        inv : Inv n s
        inv = Reach-Inv r

        full : s.queue ≢ []
        full h = cc

        roused : (i : ℕ) → i < n → s.pc i ≡ blocked → Advances n s
        roused i lt asleep = elim (dec_lt 0 s.owed) [
          | yes owes ↦ notify_goes_on inv (s.owed - 1) (omega (arith, owes))
          | no none_ ↦
              let (j, below, up) =
                total-positive rousing n s.pc (ground (arith, Reach-Roused r f i lt asleep)) in
              let (a, out) = rousing-active (s.pc j) up in
              active_goes_on inv x q j below e f (s.pc j) refl a out
        ]

  -- Where no task is left in the queue, all were started.
  queue-cases :
      {n : ℕ} {s : System A}
      → Reach n s
      → s.stop ≡ false
      → (l : List A) → s.queue ≡ l
      → (s.started ≡ s.submitted) ⊎ ((n < length s.submitted) × AllInTask n s) ⊎ Advances n s
  queue-cases {s = s} r f [] e = inl (sym ((Reach-Inv r).fifo ∙ rw e (append-nil s.started)))
  queue-cases {n} {s} r f (x ∷ q) e = inr (elim (queue-Advances r f x q e) [
    | inr a ↦ inr a
    | inl all ↦ inl (
      omega (
        arith,
        length-weight s.started,
        started-finished (λ (x : A). 1) r,
        in_hands-full n s.pc all,
        more,
      ),
      all,
    )
  ])
    where
      more : length s.submitted ≡ length s.started + suc (length q)
      more =
          ap length ((Reach-Inv r).fifo ∙ ap (λ l. s.started ++ l) e)
          ∙ length-append s.started (x ∷ q)

  Alone-facts :
      {n : ℕ} {s t : System A}
      → Reach n s
      → s.stop ≡ false
      → (r : Alone n s t)
      → Reach n t
        × (t.stop ≡ false)
        × (t.submitted ≡ s.submitted)
        × (moves r + bound n t ≤ bound n s)
  unfolding moves
  Alone-facts rs f start = (rs, f, refl, omega arith)
  Alone-facts rs f (then_ r st a) =
      let (rt, ft, sub, less) = Alone-facts rs f r in
      (
        next rt st,
        Step-stop st a ∙ ft,
        Step-submitted st a ∙ sub,
        omega (arith, less, Step-bound ft (Reach-not_called rt ft) st a),
      )

  -- From a reachable state of a pool that is not stopped, a run in which nothing is called, no task
  -- returns and no wakeup is spurious has at most `bound` steps. At its end all the submitted tasks
  -- were started in their order, or there are more of them than workers and every worker runs one,
  -- or the run can go on.
  pub Alone-fills :
      {n : ℕ} {s : System A}
      → Reach n s
      → s.stop ≡ false
      → (t : System A) (r : Alone n s t)
      → (moves r ≤ bound n s)
        × ((t.started ≡ s.submitted) ⊎ ((n < length s.submitted) × AllInTask n t) ⊎ Advances n t)
  Alone-fills rs f t r =
      let (rt, ft, sub, less) = Alone-facts rs f r in
      (omega (arith, less), rw (sym sub) (queue-cases rt ft t.queue refl))

  -- The same, with no more tasks than workers.
  pub Alone-all :
      {n : ℕ} {s : System A}
      → Reach n s
      → s.stop ≡ false
      → length s.submitted ≤ n
      → (t : System A) (r : Alone n s t)
      → (moves r ≤ bound n s) × ((t.started ≡ s.submitted) ⊎ Advances n t)
  Alone-all rs f enough t r =
      let (few, ends) = Alone-fills rs f t r in
      (
        few,
        elim ends [
          | inl all ↦ inl all
          | inr (inl (more, busy)) ↦ absurd (omega (arith, more, enough))
          | inr (inr on) ↦ inr on
        ],
      )
