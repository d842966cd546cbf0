-- ===== src/EchoServer/Reach/Rounds.antt =====
-- A round of a loop of a server of many clients, with any number of events.
use reactor_server.Base.{
  ℕ, ◌≤◌, ◌≡◌, ◌≢◌, refl, sym, ap, subst, ◌∙◌, inl, inr, Bool-cases, ◌||◌, some, List, [], ◌∷◌,
  Outcome, ok, fault, Outcome-cases, same_ok, not_ok, arith,
}
use reactor_server.Channel.State.{
  Channel, has, epollin, epollpri, epollout, epollrdhup, handleevent, setrevents, setreadcallback,
  no_callbacks,
}
use reactor_server.Connection.Defs.{Answers}
use reactor_server.EchoServer.Defs.{State, callbacks}
use reactor_server.EchoServer.Reach.Events.{IsOpen, IsOpen-Goes, IsOpen-IsLive, handle-Handled}
use reactor_server.EchoServer.Reach.Ends.{Handled}
use reactor_server.EchoServer.Reach.Moves.{Goes, stays, then-Goes, touch-Goes, loop-Goes}
use reactor_server.EchoServer.Reach.Sends.{handlewakeup-Goes}
use reactor_server.EchoServer.Reach.Sound.{Inv}
use reactor_server.Epoll.Defs.{returned, collect, loop}
use reactor_server.Epoll.Kernel.{Kernel, Laws}
use reactor_server.EventLoop.Run.{
  Source, wake, timer, client, put_revents, handle_source, handle_all, round, handlewakeup,
  handletimer,
}
use reactor_server.EventLoop.Timer.{rearmed, handletimer-eq}
use reactor_server.TcpServer.Defs.{handlers, epolltimeout}
use reactor_server.World.{Conn, Call, put_conn, put_conn-at}

-- The channels of the events, in their order.
abbrev pub sources : List (Source × ℕ) → List Source
sources [] = []
sources ((src, ev) ∷ events) = src ∷ sources events

-- The connection at `p` is not among them.
abbrev pub IsAbsent : ℕ → List Source → Type 0
IsAbsent p [] = Unit
IsAbsent p (client q ∷ srcs) = (q ≢ p) × IsAbsent p srcs
IsAbsent p (src ∷ srcs) = IsAbsent p srcs

module _ (k : Kernel) (laws : Laws k) where
  open laws use {watched}

  -- All connections among them are open, and none comes twice.
  abbrev pub AllOpen : List Source → State k → Type 0
  AllOpen [] w = Unit
  AllOpen (client p ∷ srcs) w = IsOpen k laws p w × IsAbsent p srcs × AllOpen srcs w
  AllOpen (src ∷ srcs) w = AllOpen srcs w

  pub AllOpen-Goes :
      (srcs : List Source) (w w' : State k) → Goes k laws w w' → AllOpen srcs w → AllOpen srcs w'
  AllOpen-Goes [] w w' g h = tt
  AllOpen-Goes (wake ∷ srcs) w w' g h = AllOpen-Goes srcs w w' g h
  AllOpen-Goes (timer ∷ srcs) w w' g h = AllOpen-Goes srcs w w' g h
  AllOpen-Goes (client p ∷ srcs) w w' g h =
      (IsOpen-Goes k laws p w w' (h.0) g, h.1, AllOpen-Goes srcs w w' g h.2)

  pub AllOpen-Handled :
      (p : ℕ) (srcs : List Source) (w w' : State k)
      → Handled k laws p w w'
      → IsAbsent p srcs
      → AllOpen srcs w
      → AllOpen srcs w'
  AllOpen-Handled p [] w w' g a h = tt
  AllOpen-Handled p (wake ∷ srcs) w w' g a h = AllOpen-Handled p srcs w w' g a h
  AllOpen-Handled p (timer ∷ srcs) w w' g a h = AllOpen-Handled p srcs w w' g a h
  AllOpen-Handled p (client q ∷ srcs) w w' g a h = (
    record { made = rw (g.same_next) (h.0).made; is_open = g.others_end q (a.0) ∙ (h.0).is_open },
    h.1,
    AllOpen-Handled p srcs w w' g (a.1) h.2,
  )

  -- `revents_` of a client's channel.
  pub noted-Goes :
      (p ev : ℕ) (w : State k)
      → Inv k laws w
      → IsOpen k laws p w
      → Goes k laws w
          (put_conn p (record (w.objs p) { channel = setrevents (w.objs p).channel ev }) w)
  unfolding setrevents
  noted-Goes p ev w inv o =
      let c : Conn = record (w.objs p) { channel = setrevents (w.objs p).channel ev } in
      let live = IsOpen-IsLive k laws p w inv o in
      touch-Goes k laws p c w (put_conn p c w) inv o.made o.is_open
        (record {
          now = put_conn-at p c w;
          elsewhere = λ q ne. ground arith;
          same_loop = refl;
          same_fd = refl;
          loop_kept = refl;
          other_loops = λ m ne. refl;
          interests = λ j ne. refl;
          outer_kept = refl;
        })
        refl refl (rw (put_conn-at p c w) (record { flagged = live.flagged; listed = live.listed }))

  put_revents-Goes :
      (l : ℕ) (src : Source) (srcs : List Source) (ev : ℕ) (w : State k)
      → Inv k laws w
      → l ≤ w.outer.threadnum
      → AllOpen (src ∷ srcs) w
      → Goes k laws w (put_revents l src ev w) × AllOpen srcs (put_revents l src ev w)
  unfolding put_revents
  put_revents-Goes l wake srcs ev w inv le h =
      let g = loop-Goes k laws l _ w inv refl (λ j. refl) (inv.queues l le) in
      (g, AllOpen-Goes srcs w _ g h)
  put_revents-Goes l timer srcs ev w inv le h =
      let g = loop-Goes k laws l _ w inv refl (λ j. refl) (inv.queues l le) in
      (g, AllOpen-Goes srcs w _ g h)
  put_revents-Goes l (client p) srcs ev w inv le h =
      let g = noted-Goes p ev w inv (h.0) in (g, AllOpen-Goes srcs w _ g h.2)

  pub collect-Goes :
      (l : ℕ) (events : List (Source × ℕ)) (w : State k)
      → Inv k laws w
      → l ≤ w.outer.threadnum
      → AllOpen (sources events) w
      → Goes k laws w (collect (put_revents l) events w).0
        × ((collect (put_revents l) events w).1 ≡ sources events)
  unfolding collect
  collect-Goes l [] w inv le h = (stays k laws w inv, refl)
  collect-Goes l ((src, ev) ∷ events) w inv le h =
      let (g, h') = put_revents-Goes l src (sources events) ev w inv le h in
      let (g', e) =
        collect-Goes l events (put_revents l src ev w) g.inv (rw (g.same_threadnum) le) h' in
      (then-Goes k laws g g', ap (λ s. src ∷ s) e)

  -- A channel that has a callback for input only.
  reading_only :
      (ch : Channel) (fn : State k → Outcome (State k)) (w w' : State k)
      → handleevent ch (setreadcallback no_callbacks fn) w ≡ ok w'
      → fn w ≡ ok w'
  unfolding handleevent setreadcallback no_callbacks
  reading_only ch fn w w' e = elim (Bool-cases (has ch.revents epollrdhup)) [
    | inl end ↦ absurd (not_ok refl (rw end at e))
    | inr no_end ↦ elim (Bool-cases (has ch.revents epollin || has ch.revents epollpri)) [
      | inl readable ↦ rw (no_end, readable) at e
      | inr unreadable ↦ elim (Bool-cases (has ch.revents epollout)) [
        | inl writable ↦ absurd (not_ok refl (rw (no_end, unreadable, writable) at e))
        | inr unwritable ↦ absurd (not_ok refl (rw (no_end, unreadable, unwritable) at e))
      ]
    ]
  ]

  timer-Goes :
      (cb : Call k _) (now l : ℕ) (w w' : State k)
      → Inv k laws w
      → l ≤ w.outer.threadnum
      → handletimer cb now l w ≡ ok w'
      → Goes k laws w w'
  timer-Goes cb now l w w' inv le e =
      subst (Goes k laws w) (same_ok (handletimer-eq cb now l w) e) (
        loop-Goes k laws l (rearmed (w.loops l)) w inv refl
          (λ j. laws.arm_watched (w.loops l).timetvl j (w.loops l).kernel) (inv.queues l le))

  handle_all-Inv :
      (io l : ℕ) (a : Source → Answers) (cb idle : Call k _) (srcs : List Source) (w w' : State k)
      → Inv k laws w
      → l ≤ w.outer.threadnum
      → AllOpen srcs w
      → handle_all (handlers (callbacks io)) cb idle a l srcs w ≡ ok w'
      → Inv k laws w'
        × (w'.outer.threadnum ≡ w.outer.threadnum)
        × (w'.outer.user.workers ≡ w.outer.user.workers)
  unfolding handle_all handle_source
  handle_all-Inv io l a cb idle [] w w' inv le h e =
      subst
        (λ v.
          Inv k laws v
          × (v.outer.threadnum ≡ w.outer.threadnum)
          × (v.outer.user.workers ≡ w.outer.user.workers))
        (same_ok refl e) (inv, refl, refl)
  handle_all-Inv io l a cb idle (src ∷ srcs) w w' inv le h e =
      let u = handlers (callbacks io) in
      elim (Outcome-cases (handle_source u cb idle (a src) l src w)) [
        | inl (f, failed) ↦
            let gone : handle_all u cb idle a l (src ∷ srcs) w ≡ fault f = rw failed refl in
            absurd (not_ok gone e)
        | inr (v, done) ↦
            let here : handle_all u cb idle a l (src ∷ srcs) w ≡ handle_all u cb idle a l srcs v =
              rw done refl in
            let (inv', same, crew, h') = one src v done h in
            let (inv'', same', crew') =
              handle_all-Inv io l a cb idle srcs v w' inv' (rw same le) h' (sym here ∙ e) in
            (inv'', same' ∙ same, crew' ∙ crew)
      ]
    where
      one :
          (src : Source) (v : State k)
          → handle_source (handlers (callbacks io)) cb idle (a src) l src w ≡ ok v
          → AllOpen (src ∷ srcs) w
          → Inv k laws v
            × (v.outer.threadnum ≡ w.outer.threadnum)
            × (v.outer.user.workers ≡ w.outer.user.workers)
            × AllOpen srcs v
      one wake v done h =
          let g =
            handlewakeup-Goes k laws l w v inv le
              (reading_only (w.loops l).wakechannel (handlewakeup l) w v done) in
          (g.inv, g.same_threadnum, g.same_workers, AllOpen-Goes srcs w v g h)
      one timer v done h =
          let fn = handletimer cb ((a timer).clock 0) l in
          let g =
            timer-Goes cb ((a timer).clock 0) l w v inv le
              (reading_only (w.loops l).timerchannel fn w v done) in
          (g.inv, g.same_threadnum, g.same_workers, AllOpen-Goes srcs w v g h)
      one (client p) v done h =
          let g = handle-Handled k laws io (a (client p)) p w v inv (h.0) done in
          (g.inv, g.same_threadnum, g.same_workers, AllOpen-Handled p srcs w v g h.1 h.2)

  pub round-Inv :
      (io l : ℕ) (a : Source → Answers) (cb : Call k _) (events : List (Source × ℕ))
      (w w' : State k)
      → Inv k laws w
      → l ≤ w.outer.threadnum
      → AllOpen (sources events) w
      → round
          (handlers (callbacks io))
          cb
          (some (epolltimeout (callbacks io)))
          a
          l
          (returned events)
          w
        ≡ ok w'
      → Inv k laws w' × (w'.outer.user.workers ≡ w.outer.user.workers)
  unfolding round loop collect epolltimeout callbacks
  round-Inv io l a cb [] w w' inv le h e =
      subst (λ v. Inv k laws v × (v.outer.user.workers ≡ w.outer.user.workers)) (same_ok refl e)
        (inv, refl)
  round-Inv io l a cb ((src, ev) ∷ events) w w' inv le h e =
      let idle = some (epolltimeout (callbacks io)) in
      let (g, same) = collect-Goes l ((src, ev) ∷ events) w inv le h in
      let (inv', same', crew) =
        handle_all-Inv io l a cb idle (sources ((src, ev) ∷ events)) _ w' g.inv
          (rw (g.same_threadnum) le) (AllOpen-Goes (sources ((src, ev) ∷ events)) w _ g h)
          (rw same at e) in
      (inv', crew ∙ g.same_workers)
