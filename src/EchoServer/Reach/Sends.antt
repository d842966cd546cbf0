-- ===== src/EchoServer/Reach/Sends.antt =====
-- Output in a server of many clients: `send`, the tasks of a loop, and the work of the workers.
use reactor_server.Base.{
  ◌⊎◌, undefined, exits, ℕ, ◌≤◌, ◌<◌, ◌≡◌, refl, sym, ap, subst, ◌∙◌, false, inl, inr, true,
  Bool-cases, leb, leb→le, Option, none, some, pull, pull-parts, List, [], ◌∷◌, ◌++◌, length, ok,
  fault, Outcome-cases, same_ok, not_ok, arith, ◌==◌,
}
use reactor_server.Connection.Close.{sendinloop-gone, send-disconnected}
use reactor_server.Connection.Defs.{strdup, sendinloop, send}
use reactor_server.Connection.Output.{sendinloop-Touched}
use reactor_server.Connection.Text.{sendinloop-short}
use reactor_server.EchoServer.Defs.{
  State, io_prefix, work_prefix, on_message, add_task, handle_message, work,
}
use reactor_server.EchoServer.Reach.Moves.{Goes, stays, then-Goes, touch-Goes, loop-Goes, user-Goes}
use reactor_server.EchoServer.Reach.Sound.{AllBelow, WorksBelow, Inv, loop_in_range}
use reactor_server.Epoll.Kernel.{Kernel, Laws}
use reactor_server.EventLoop.Defs.{isinloopthread, queueinloop, wakeup}
use reactor_server.EventLoop.Run.{run_tasks, handlewakeup}
use reactor_server.World.{Task, put_loop}

short : (n m : ℕ) → leb n m ≡ false → m < n
short n m e = ground arith

AllBelow-append : (n : ℕ) (q r : List Task) → AllBelow n q → AllBelow n r → AllBelow n (q ++ r)
AllBelow-append n [] r h h' = h'
AllBelow-append n (fn ∷ q) r h h' = (h.0, AllBelow-append n q r h.1 h')

WorksBelow-append :
    (n : ℕ) (q r : List (ℕ × List ℕ)) → WorksBelow n q → WorksBelow n r → WorksBelow n (q ++ r)
WorksBelow-append n [] r h h' = h'
WorksBelow-append n ((p, m) ∷ q) r h h' = (h.0, WorksBelow-append n q r h.1 h')

WorksBelow-parts :
    (n : ℕ) (q r : List (ℕ × List ℕ)) → WorksBelow n (q ++ r) → WorksBelow n q × WorksBelow n r
WorksBelow-parts n [] r h = (tt, h)
WorksBelow-parts n ((p, m) ∷ q) r h = let (h₁, h₂) = WorksBelow-parts n q r h.1 in ((h.0, h₁), h₂)

module _ (k : Kernel) (laws : Laws k) where
  -- A block that is too short is read past its end; the connection was closed and the process ends; or
  -- the bytes are kept for output.
  pub sendinloop-cases :
      (p : ℕ) (block : List ℕ) (n : ℕ) (w : State k)
      → Inv k laws w
      → p < w.outer.next
      → ((leb n (length block) ≡ false) × (sendinloop p block n w ≡ fault undefined))
        ⊎ ((leb n (length block) ≡ true)
            × ((w.objs p).disconnect ≡ true)
            × (sendinloop p block n w ≡ fault exits))
        ⊎ ((leb n (length block) ≡ true)
            × ((w.objs p).disconnect ≡ false)
            × ((v : State k) × (sendinloop p block n w ≡ ok v) × Goes k laws w v))
  sendinloop-cases p block n w inv below =
      let s = inv.sound p below in
      elim (Bool-cases (leb n (length block))) [
        | inr less ↦ inl (less, sendinloop-short p block n w (short n (length block) less))
        | inl enough ↦
            let le = leb→le n (length block) enough in
            inr (elim (Bool-cases (w.objs p).disconnect) [
              | inl closed ↦
                  inl (enough, closed, sendinloop-gone k laws p block n w (s.shut closed) le)
              | inr is_open ↦
                  let (v, done, t, live) =
                    sendinloop-Touched k laws p block n w ((s.open_ is_open).0) le in
                  inr (
                    enough,
                    is_open,
                    (v, done, touch-Goes k laws p _ w v inv below is_open t refl refl live),
                  )
            ])
      ]

  pub sendinloop-Goes :
      (p : ℕ) (block : List ℕ) (n : ℕ) (w w' : State k)
      → Inv k laws w
      → p < w.outer.next
      → sendinloop p block n w ≡ ok w'
      → Goes k laws w w'
  sendinloop-Goes p block n w w' inv below e = elim (sendinloop-cases p block n w inv below) [
    | inl (less, failed) ↦ absurd (not_ok failed e)
    | inr (inl (enough, closed, failed)) ↦ absurd (not_ok failed e)
    | inr (inr (enough, is_open, (v, done, g))) ↦ subst (Goes k laws w) (same_ok done e) g
  ]

  send-in_loop :
      (thread p : ℕ) (block : List ℕ) (n : ℕ) (w w' : State k)
      → Inv k laws w
      → p < w.outer.next
      → (w.objs p).disconnect ≡ false
      → send thread p block n w ≡ ok w'
      → Goes k laws w w'
  unfolding send queueinloop wakeup
  send-in_loop thread p block n w w' inv below is_open e =
      let l = (w.objs p).loop in
      elim (Outcome-cases (strdup block)) [
        | inl (f, failed) ↦
            let gone : send thread p block n w ≡ fault f = rw (is_open, failed) (ground arith) in
            absurd (not_ok gone e)
        | inr (copy, copied) ↦ elim (Bool-cases (isinloopthread thread (w.loops l))) [
          | inl own ↦
              let here : send thread p block n w ≡ sendinloop p copy n w =
                rw (is_open, own, copied) refl in
              sendinloop-Goes p copy n w w' inv below (sym here ∙ e)
          | inr other ↦
              let fn : Task = record { target = p; block = copy; size = n } in
              let x = queueinloop fn (w.loops l) in
              let there : send thread p block n w ≡ ok (put_loop l x w) =
                rw (is_open, other, copied) refl in
              subst (Goes k laws w) (same_ok there e) (
                loop-Goes k laws l x w inv refl (λ j. laws.write_watched j (w.loops l).kernel)
                  (AllBelow-append w.outer.next (w.loops l).taskqueue (fn ∷ [])
                    (inv.queues l (loop_in_range k laws p w inv.threads (inv.sound p below)))
                    (below, tt)))
        ]
      ]

  pub send-Goes :
      (thread p : ℕ) (block : List ℕ) (n : ℕ) (w w' : State k)
      → Inv k laws w
      → p < w.outer.next
      → send thread p block n w ≡ ok w'
      → Goes k laws w w'
  send-Goes thread p block n w w' inv below e = elim (Bool-cases (w.objs p).disconnect) [
    | inl closed ↦
        subst (Goes k laws w) (same_ok (send-disconnected k laws thread p block n w closed) e)
          (stays k laws w inv)
    | inr is_open ↦ send-in_loop thread p block n w w' inv below is_open e
  ]

  pub handle_message-Goes :
      (thread p : ℕ) (m m' : List ℕ) (w w' : State k)
      → Inv k laws w
      → p < w.outer.next
      → handle_message thread p m w ≡ ok (m', w')
      → Goes k laws w w'
  unfolding handle_message on_message add_task
  handle_message-Goes thread p m m' w w' inv below e =
      elim (Bool-cases (w.outer.user.workers == 0)) [
        | inr some_ ↦
            let given : handle_message thread p m w
                ≡ ok (work_prefix ++ m, add_task p (work_prefix ++ m) w) =
              rw some_ refl in
            subst (Goes k laws w) (ap (λ r. r.1) (same_ok given e)) (
              user-Goes k laws
                (record w.outer.user { tasks = w.outer.user.tasks ++ (p, work_prefix ++ m) ∷ [] }) w
                inv
                (WorksBelow-append w.outer.next w.outer.user.tasks ((p, work_prefix ++ m) ∷ [])
                  inv.works (below, tt))
                refl)
        | inl none_ ↦
            let reply = io_prefix ++ m in
            elim (Outcome-cases (on_message thread p reply w)) [
              | inl (f, failed) ↦
                  let gone : handle_message thread p m w ≡ fault f = rw (none_, failed) refl in
                  absurd (not_ok gone e)
              | inr (v, sent) ↦
                  let done : handle_message thread p m w ≡ ok (reply, v) = rw (none_, sent) refl in
                  subst (Goes k laws w) (ap (λ r. r.1) (same_ok done e))
                    (send-Goes thread p (reply ++ 0 ∷ []) (length reply) w v inv below sent)
            ]
      ]

  run_tasks-Goes :
      (q : List Task) (l : ℕ) (w w' : State k)
      → Inv k laws w
      → AllBelow w.outer.next q
      → run_tasks q l w ≡ ok w'
      → Goes k laws w w'
  unfolding run_tasks
  run_tasks-Goes [] l w w' inv below e = subst (Goes k laws w) (same_ok refl e) (stays k laws w inv)
  run_tasks-Goes (fn ∷ q) l w w' inv below e =
      let x = record (w.loops l) { taskqueue = q } in
      let w₀ = put_loop l x w in
      let g₀ = loop-Goes k laws l x w inv refl (λ j. refl) (below.1) in
      elim (Outcome-cases (sendinloop fn.target fn.block fn.size w₀)) [
        | inl (f, failed) ↦
            let gone : run_tasks (fn ∷ q) l w ≡ fault f = rw failed refl in absurd (not_ok gone e)
        | inr (v, sent) ↦
            let g₁ = sendinloop-Goes fn.target fn.block fn.size w₀ v g₀.inv (below.0) sent in
            let here : run_tasks (fn ∷ q) l w ≡ run_tasks q l v = rw sent refl in
            then-Goes k laws (then-Goes k laws g₀ g₁)
              (run_tasks-Goes q l v w' g₁.inv (rw (g₁.same_next) (below.1)) (sym here ∙ e))
      ]

  pub handlewakeup-Goes :
      (l : ℕ) (w w' : State k)
      → Inv k laws w
      → l ≤ w.outer.threadnum
      → handlewakeup l w ≡ ok w'
      → Goes k laws w w'
  unfolding handlewakeup
  handlewakeup-Goes l w w' inv le e =
      let x = record (w.loops l) { kernel = k.read_event (w.loops l).kernel } in
      let g =
        loop-Goes k laws l x w inv refl (λ j. laws.read_watched j (w.loops l).kernel)
          (inv.queues l le) in
      then-Goes k laws g
        (run_tasks-Goes (w.loops l).taskqueue l (put_loop l x w) w' g.inv (inv.queues l le) e)

  pull-WorksBelow :
      (n j : ℕ) (q rest : List (ℕ × List ℕ)) (x : ℕ × List ℕ)
      → WorksBelow n q
      → pull j q ≡ some (x, rest)
      → (x.0 < n) × WorksBelow n rest
  pull-WorksBelow n j q rest x h e =
      let (front, back, at, left, place) = pull-parts j q rest x e in
      let (h₁, h₂) = WorksBelow-parts n front (x ∷ back) (subst (WorksBelow n) at h) in
      (h₂.0, subst (WorksBelow n) (sym left) (WorksBelow-append n front back h₁ (h₂.1)))

  pub work-Goes :
      (j thread : ℕ) (w w' : State k) → Inv k laws w → work j thread w ≡ ok w' → Goes k laws w w'
  unfolding work on_message
  work-Goes j thread w w' inv e = task (pull j w.outer.user.tasks) refl e
    where
      task :
          (found : Option ((ℕ × List ℕ) × List (ℕ × List ℕ)))
          → pull j w.outer.user.tasks ≡ found
          → work j thread w ≡ ok w'
          → Goes k laws w w'
      task none none_ e =
          let idle : work j thread w ≡ ok w = rw (none_, work) refl in
          subst (Goes k laws w) (same_ok idle e) (stays k laws w inv)
      task (some ((p, m), rest)) some_ e =
          let (here_below, below) =
            pull-WorksBelow w.outer.next j w.outer.user.tasks rest (p, m) inv.works some_ in
          let user = record w.outer.user { tasks = rest } in
          let w₀ = record w { outer = record w.outer { user = user } } in
          let g = user-Goes k laws user w inv below refl in
          let here : work j thread w ≡ send thread p (m ++ 0 ∷ []) (length m) w₀ =
            rw (some_, work) refl in
          then-Goes k laws g
            (send-Goes thread p (m ++ 0 ∷ []) (length m) w₀ w' g.inv here_below (sym here ∙ e))
