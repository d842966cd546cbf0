-- ===== src/ThreadPool/Moves.antt =====
-- The worker that a step moves, and the conditions of the step, for proofs that treat many steps alike.
use reactor_server.Base.{ℕ, suc, ◌<◌, ◌≡◌, ◌≢◌, ◌⊎◌, true, false, none, [], ◌∷◌}
use reactor_server.ThreadPool.System.{
  head, enter, check, park, blocked, woken, ready, running, System, raised, Step, push, notify_one,
  notify_nobody, raise, notify_all, spurious, again, quit, acquire, pass, hold, sleep, leave,
  take_task, finish,
}

module _ {A : Type 0} where
  -- The worker that a step moves, and what the step requires.
  unfoldable pub actor : {n : ℕ} {s t : System A} → Step n s t → ℕ
  actor (push x e) = 0
  actor (notify_one i m lt e at) = i
  actor (notify_nobody m e f) = 0
  actor (raise e) = 0
  actor (notify_all e) = 0
  actor (spurious i lt at) = i
  actor (again i lt at e) = i
  actor (quit i lt at e) = i
  actor (acquire i lt at e) = i
  actor (pass i lt at e) = i
  actor (hold i lt at e f) = i
  actor (sleep i lt at) = i
  actor (leave i lt at e f) = i
  actor (take_task i x q lt at e) = i
  actor (finish i x lt at) = i

  abbrev pub Guard : {n : ℕ} {s t : System A} → Step n s t → Type 0
  Guard {s} (push x e) = s.lock ≡ none
  Guard {n} {s} (notify_one i m lt e at) = (i < n) × (s.owed ≡ suc m) × (s.pc i ≡ blocked)
  Guard {s} (notify_nobody m e f) = s.owed ≡ suc m
  Guard {s} (raise e) = s.stop ≡ false
  Guard {s} (notify_all e) = s.stopper ≡ raised
  Guard {n} {s} (spurious i lt at) = (i < n) × (s.pc i ≡ blocked)
  Guard {n} {s} (again i lt at e) = (i < n) × (s.pc i ≡ head) × (s.stop ≡ false)
  Guard {n} {s} (quit i lt at e) = (i < n) × (s.pc i ≡ head) × (s.stop ≡ true)
  Guard {n} {s} (acquire i lt at e) =
      (i < n) × ((s.pc i ≡ enter) ⊎ (s.pc i ≡ woken)) × (s.lock ≡ none)
  Guard {n} {s} (pass i lt at e) = (i < n) × (s.pc i ≡ check) × ((s.stop ≡ true) ⊎ (s.queue ≢ []))
  Guard {n} {s} (hold i lt at e f) = (i < n) × (s.pc i ≡ check) × (s.stop ≡ false) × (s.queue ≡ [])
  Guard {n} {s} (sleep i lt at) = (i < n) × (s.pc i ≡ park)
  Guard {n} {s} (leave i lt at e f) = (i < n) × (s.pc i ≡ ready) × (s.stop ≡ true) × (s.queue ≡ [])
  Guard {n} {s} (take_task i x q lt at e) = (i < n) × (s.pc i ≡ ready) × (s.queue ≡ x ∷ q)
  Guard {n} {s} (finish i x lt at) = (i < n) × (s.pc i ≡ running x)

  pub guard : {n : ℕ} {s t : System A} (st : Step n s t) → Guard st
  guard (push x e) = e
  guard (notify_one i m lt e at) = (lt, e, at)
  guard (notify_nobody m e f) = e
  guard (raise e) = e
  guard (notify_all e) = e
  guard (spurious i lt at) = (lt, at)
  guard (again i lt at e) = (lt, at, e)
  guard (quit i lt at e) = (lt, at, e)
  guard (acquire i lt at e) = (lt, at, e)
  guard (pass i lt at e) = (lt, at, e)
  guard (hold i lt at e f) = (lt, at, e, f)
  guard (sleep i lt at) = (lt, at)
  guard (leave i lt at e f) = (lt, at, e, f)
  guard (take_task i x q lt at e) = (lt, at, e)
  guard (finish i x lt at) = (lt, at)
