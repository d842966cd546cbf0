-- ===== src/ThreadPool/Invariant.antt =====
-- What holds in every state that a pool can come to.
use reactor_server.Base.{
  ℕ, ◌<◌, ◌≡◌, ◌≢◌, refl, ◌⊎◌, inl, inr, Bool, true, false, some, [], ◌∷◌, ◌++◌, append_assoc,
  arith, sym, ◌∙◌, ap,
}
use reactor_server.ThreadPool.Moves.{actor, guard}
use reactor_server.ThreadPool.System.{
  Pc, check, park, blocked, ready, exited, System, init, Step, push, notify_one, notify_nobody,
  raise, take_task, From, here, next, Reach,
}

module _ {A : Type 0} where
  -- The worker holds the mutex.
  abbrev pub inside : Pc A → Bool
  inside check = true
  inside park = true
  inside ready = true
  inside p = false

  -- The worker will look at the queue again before it sleeps.
  abbrev pub active : Pc A → Bool
  active park = false
  active blocked = false
  active exited = false
  active p = true

  pub record Inv (n : ℕ) (s : System A) : Type 0 where
    pub fifo : s.submitted ≡ s.started ++ s.queue
    pub held : (i : ℕ) → inside (s.pc i) ≡ true → s.lock ≡ some i
    pub owner : (i : ℕ) → s.lock ≡ some i → (inside (s.pc i) ≡ true) × (i < n)
    pub parked : (i : ℕ) → s.pc i ≡ park → s.queue ≡ []
    pub allowed : (i : ℕ) → s.pc i ≡ ready → (s.stop ≡ true) ⊎ (s.queue ≢ [])
    pub alive : (i : ℕ) → s.stop ≡ false → s.pc i ≢ exited
    pub awake :
        0 < n
        → s.queue ≢ []
        → s.stop ≡ false
        → (0 < s.owed) ⊎ ((i : ℕ) × (i < n) × (active (s.pc i) ≡ true))

  init-Inv : (n : ℕ) → Inv n init
  init-Inv n = record {
    fifo = refl;
    held = λ i h. cc;
    owner = λ i h. cc;
    parked = λ i h. cc;
    allowed = λ i h. cc;
    alive = λ i h e. cc;
    awake = λ pos ne h. absurd (ne refl);
  }

  module _ {n : ℕ} {s : System A} (inv : Inv n s) where
    open inv use {fifo, held, owner, parked, allowed, alive, awake}

    Step-fifo : {t : System A} → Step n s t → t.submitted ≡ t.started ++ t.queue
    Step-fifo (push x f) = ap (λ l. l ++ x ∷ []) fifo ∙ append_assoc s.started s.queue (x ∷ [])
    Step-fifo (take_task i x q lt at e) = fifo ∙ rw e (sym (append_assoc s.started (x ∷ []) q))
    Step-fifo st = fifo

    Step-held : {t : System A} → Step n s t → (j : ℕ) → inside (t.pc j) ≡ true → t.lock ≡ some j
    unfolding actor
    Step-held (push x e) j h = ground (arith, held j)
    Step-held st j h = ground (arith, guard st, held j, held (actor st))

    Step-owner :
        {t : System A} → Step n s t → (j : ℕ) → t.lock ≡ some j → (inside (t.pc j) ≡ true) × (j < n)
    unfolding actor
    Step-owner (push x e) j h = ground (arith, owner j)
    Step-owner st j h = ground (arith, guard st, owner j, held (actor st))

    Step-parked : {t : System A} → Step n s t → (j : ℕ) → t.pc j ≡ park → t.queue ≡ []
    unfolding actor
    Step-parked (push x e) j h = ground (arith, held j)
    Step-parked st j h = ground (arith, guard st, parked j, held (actor st), held j)

    Step-allowed :
        {t : System A} → Step n s t → (j : ℕ) → t.pc j ≡ ready → (t.stop ≡ true) ⊎ (t.queue ≢ [])
    unfolding actor
    Step-allowed (push x e) j h = ground (arith, held j)
    Step-allowed st j h = ground (arith, guard st, allowed j, held (actor st), held j)

    Step-alive : {t : System A} → Step n s t → (j : ℕ) → t.stop ≡ false → t.pc j ≢ exited
    unfolding actor
    Step-alive (push x e) j h = alive j h
    Step-alive st j h = ground (arith, guard st, alive j)

    Step-awake :
        {t : System A}
        → Step n s t
        → 0 < n
        → t.queue ≢ []
        → t.stop ≡ false
        → (0 < t.owed) ⊎ ((j : ℕ) × (j < n) × (active (t.pc j) ≡ true))
    Step-awake (push x e) pos ne h = inl (omega arith)
    Step-awake (notify_one i m lt e at) pos ne h = inr (i, lt, ground arith)
    Step-awake (notify_nobody m e f) pos ne h =
        inr (0, pos, ground (arith, alive 0, parked 0, f 0 pos))
    Step-awake (raise e) pos ne h = cc
    Step-awake (take_task i x q lt at e) pos ne h = inr (i, lt, ground arith)
    Step-awake st pos ne h = elim (awake pos ne h) [
      | inl o ↦ inl o
      | inr (j, lt, a) ↦ inr (j, lt, ground (arith, guard st))
    ]

    pub Step-Inv : {t : System A} → Step n s t → Inv n t
    Step-Inv st = record {
      fifo = Step-fifo st;
      held = Step-held st;
      owner = Step-owner st;
      parked = Step-parked st;
      allowed = Step-allowed st;
      alive = Step-alive st;
      awake = Step-awake st;
    }

  pub From-Inv : {n : ℕ} {s t : System A} → Inv n s → From n s t → Inv n t
  From-Inv inv here = inv
  From-Inv inv (next r st) = Step-Inv (From-Inv inv r) st

  pub Reach-Inv : {n : ℕ} {s : System A} → Reach n s → Inv n s
  Reach-Inv {n} r = From-Inv (init-Inv n) r
