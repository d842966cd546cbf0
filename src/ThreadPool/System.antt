-- ===== src/ThreadPool/System.antt =====
-- The pool's threads, interleaved in any order. A step is one access to what the threads share; the
-- reads and writes of `stop_` are sequentially consistent.
use reactor_server.Base.{
  ℕ, suc, ◌<◌, ◌≡◌, ◌≢◌, ◌⊎◌, Bool, true, false, Option, none, some, List, [], ◌∷◌, ◌++◌, ◌==◌,
  if◌then◌else◌,
}

-- Where a worker stands in the lambda of the constructor.
pub data Pc (A : Type 0) : Type 0 where
  -- `while (stop_==false)`
  head : Pc A
  -- the construction of `lock`
  enter : Pc A
  -- the predicate of `wait`, with the mutex held
  check : Pc A
  -- the predicate was false, and the thread is not yet asleep
  park : Pc A
  -- asleep in `wait`, with the mutex released
  blocked : Pc A
  -- out of its sleep, and waiting for the mutex
  woken : Pc A
  -- behind `wait`
  ready : Pc A
  -- `task()`
  running : A → Pc A
  exited : Pc A

-- Where the thread that calls `Stop` stands.
pub data Stopper : Type 0 where
  not_called raised joining : Stopper

module _ (A : Type 0) where
  pub record System : Type 0 where
    -- taskqueue_, the front first
    pub queue : List A
    -- stop_
    pub stop : Bool
    -- the worker that holds mutex_
    pub lock : Option ℕ
    -- calls of `addtask` that have pushed and not yet notified
    pub owed : ℕ
    pub stopper : Stopper
    -- the worker threads; from the pool's size on no worker
    pub pc : ℕ → Pc A
    -- the history: tasks that `addtask` pushed, that a worker took, and that returned
    pub submitted : List A
    pub started : List A
    pub finished : List A

abbrev pub update {ℓ} : {A : Type ℓ} → (ℕ → A) → ℕ → A → ℕ → A
update f i a j = if i == j then a else f j

module _ {A : Type 0} where
  -- `notify_all`, for one worker
  abbrev pub wake : Pc A → Pc A
  wake blocked = woken
  wake p = p

  -- The constructor: every thread is about to enter its loop.
  abbrev pub init : System A
  init = record {
    queue = [];
    stop = false;
    lock = none;
    owed = 0;
    stopper = not_called;
    pc = λ i. head;
    submitted = [];
    started = [];
    finished = [];
  }

  -- One step of a pool of `n` workers.
  pub data Step (n : ℕ) (s : System A) : System A → Type 0 where
    -- `addtask`: the push, under the mutex, and then `notify_one`
    push :
        (x : A)
        → s.lock ≡ none
        → Step n s (record s {
          queue = s.queue ++ x ∷ [];
          owed = suc s.owed;
          submitted = s.submitted ++ x ∷ [];
        })
    notify_one :
        (i m : ℕ)
        → i < n
        → s.owed ≡ suc m
        → s.pc i ≡ blocked
        → Step n s (record s { owed = m; pc = update s.pc i woken })
    notify_nobody :
        (m : ℕ)
        → s.owed ≡ suc m
        → ((i : ℕ) → i < n → s.pc i ≢ blocked)
        → Step n s (record s { owed = m })
    -- `Stop`: the flag, and then `notify_all`
    raise : s.stop ≡ false → Step n s (record s { stop = true; stopper = raised })
    notify_all :
        s.stopper ≡ raised → Step n s (record s { stopper = joining; pc = λ j. wake (s.pc j) })
    -- a wait may end with no notification
    spurious : (i : ℕ) → i < n → s.pc i ≡ blocked → Step n s (record s { pc = update s.pc i woken })
    again :
        (i : ℕ)
        → i < n
        → s.pc i ≡ head
        → s.stop ≡ false
        → Step n s (record s { pc = update s.pc i enter })
    quit :
        (i : ℕ)
        → i < n
        → s.pc i ≡ head
        → s.stop ≡ true
        → Step n s (record s { pc = update s.pc i exited })
    acquire :
        (i : ℕ)
        → i < n
        → (s.pc i ≡ enter) ⊎ (s.pc i ≡ woken)
        → s.lock ≡ none
        → Step n s (record s { lock = some i; pc = update s.pc i check })
    pass :
        (i : ℕ)
        → i < n
        → s.pc i ≡ check
        → (s.stop ≡ true) ⊎ (s.queue ≢ [])
        → Step n s (record s { pc = update s.pc i ready })
    hold :
        (i : ℕ)
        → i < n
        → s.pc i ≡ check
        → s.stop ≡ false
        → s.queue ≡ []
        → Step n s (record s { pc = update s.pc i park })
    sleep :
        (i : ℕ)
        → i < n
        → s.pc i ≡ park
        → Step n s (record s { lock = none; pc = update s.pc i blocked })
    leave :
        (i : ℕ)
        → i < n
        → s.pc i ≡ ready
        → s.stop ≡ true
        → s.queue ≡ []
        → Step n s (record s { lock = none; pc = update s.pc i exited })
    take_task :
        (i : ℕ) (x : A) (q : List A)
        → i < n
        → s.pc i ≡ ready
        → s.queue ≡ x ∷ q
        → Step n s (record s {
          queue = q;
          lock = none;
          pc = update s.pc i (running x);
          started = s.started ++ x ∷ [];
        })
    finish :
        (i : ℕ) (x : A)
        → i < n
        → s.pc i ≡ running x
        → Step n s (record s { pc = update s.pc i head; finished = s.finished ++ x ∷ [] })

  -- What steps lead to, from a state `s`.
  pub data From (n : ℕ) (s : System A) : System A → Type 0 where
    here : From n s s
    next : {t u : System A} → From n s t → Step n t u → From n s u

  -- What the pool can come to.
  abbrev pub Reach : ℕ → System A → Type 0
  Reach n = From n init
