-- ===== src/EventLoop/Queue.antt =====
-- Lists of tasks, taken together.
use reactor_server.Base.{
  ℕ, ◌≡◌, refl, sym, ap, ◌∙◌, List, [], ◌∷◌, ◌++◌, append_assoc, length, take, take-append, arith,
}
use reactor_server.Connection.Text.{c_str}
use reactor_server.EventLoop.Tasks.{addressed, AllClients}
use reactor_server.World.{Task}

pub addressed-append :
    (p : ℕ) (q r : List Task) → addressed p (q ++ r) ≡ addressed p q ++ addressed p r
addressed-append p [] r = refl
addressed-append p (fn ∷ q) r =
    rw (addressed-append p q r) (sym (append_assoc _ (addressed p q) (addressed p r)))

pub addressed-cons :
    (p : ℕ) (fn : Task) (q : List Task)
    → fn.target ≡ p
    → addressed p (fn ∷ q) ≡ take fn.size fn.block ++ addressed p q
addressed-cons p fn q e = ground arith

pub addressed-post :
    (p : ℕ) (m : List ℕ) (q : List Task)
    → addressed p (q ++ record { target = p; block = c_str m; size = length m } ∷ [])
      ≡ addressed p q ++ (m ++ [])
addressed-post p m q =
    let fn : Task = record { target = p; block = c_str m; size = length m } in
    addressed-append p q (fn ∷ [])
    ∙ ap (◌++◌ (addressed p q))
        (addressed-cons p fn [] refl ∙ ap (λ b. b ++ []) (take-append m (0 ∷ [])))

pub AllClients-append :
    (IsClient : ℕ → Type 0) (q r : List Task)
    → AllClients IsClient q
    → AllClients IsClient r
    → AllClients IsClient (q ++ r)
AllClients-append IsClient [] r hq hr = hr
AllClients-append IsClient (fn ∷ q) r hq hr = (hq.0, hq.1, AllClients-append IsClient q r hq.2 hr)
