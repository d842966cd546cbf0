-- ===== src/EventLoop/Dispatch.antt =====
-- A round of `EventLoop::run` that `epoll_wait` begins with one event.
use reactor_server.Base.{
  ℕ, ◌≡◌, refl, ap, ◌∙◌, inl, inr, [], ◌∷◌, ok, Fault, fault, Outcome-cases, same_ok, not_ok,
}
use reactor_server.Channel.State.{handleevent, setreadcallback, no_callbacks, setrevents}
use reactor_server.Channel.State as State
use reactor_server.Connection.Defs.{
  Handlers, Answers, took, onmessage, writecallback, handle, channel_callbacks,
}
use reactor_server.Epoll.Defs.{returned, loop}
use reactor_server.Epoll.Kernel.{Kernel}
use reactor_server.EventLoop.Run.{
  Source, wake, timer, client, put_revents, handle_source, handle_all, round, handlewakeup,
  handletimer,
}
use reactor_server.World.{World, Call, put_conn, put_loop, put_conn-at, put_loop-at}

-- The answers of the kernel in a round in which a `send` takes so many bytes.
abbrev pub taking : ℕ → Source → Answers
taking n src = record { fuel = 0; clock = λ r. 0; reads = []; answer = took n }

module _ {k : Kernel} {S : Type 0} where
  -- The world in which the callback for EPOLLIN on the eventfd runs.
  abbrev pub waking : ℕ → World k S → World k S
  waking l w =
      put_loop l
        (record (w.loops l) { wakechannel = record (w.loops l).wakechannel { revents = 1 } }) w

  -- The world in which the callback for EPOLLIN on the timerfd runs.
  abbrev pub ticking : ℕ → World k S → World k S
  ticking l w =
      put_loop l
        (record (w.loops l) { timerchannel = record (w.loops l).timerchannel { revents = 1 } }) w

  -- The world in which the callback for EPOLLOUT on a client's socket runs.
  abbrev pub writing : ℕ → World k S → World k S
  writing p w =
      put_conn p (record (w.objs p) { channel = record (w.objs p).channel { revents = 4 } }) w

  -- The world in which the callback for EPOLLIN on a client's socket runs.
  abbrev pub arriving : ℕ → World k S → World k S
  arriving p w =
      put_conn p (record (w.objs p) { channel = record (w.objs p).channel { revents = 1 } }) w

module _ {k : Kernel} {S : Type 0} (h : Handlers k S) (cb idle : Call k S) where
  pub round-handlewakeup :
      (n l : ℕ) (w w' : World k S)
      → handlewakeup l (waking l w) ≡ ok w'
      → round h cb idle (taking n) l (returned ((wake, 1) ∷ [])) w ≡ ok w'
  unfolding round loop put_revents handle_all handle_source handleevent setreadcallback no_callbacks
      setrevents
  round-handlewakeup n l w w' e = rw (put_loop-at l _ w, e) refl

  pub round-handletimer :
      (a : Source → Answers) (l : ℕ) (w w' : World k S)
      → handletimer cb ((a timer).clock 0) l (ticking l w) ≡ ok w'
      → round h cb idle a l (returned ((timer, 1) ∷ [])) w ≡ ok w'
  unfolding round loop put_revents handle_all handle_source handleevent setreadcallback no_callbacks
      setrevents
  round-handletimer a l w w' e = rw (put_loop-at l _ w, e) refl

  pub round-writecallback :
      (n l p : ℕ) (w w' : World k S)
      → writecallback h (took n) p (writing p w) ≡ ok w'
      → round h cb idle (taking n) l (returned ((client p, 4) ∷ [])) w ≡ ok w'
  unfolding round loop put_revents handle_all handle_source handle handleevent channel_callbacks
      setreadcallback no_callbacks setrevents State.setclosecallback State.seterrorcallback
      State.setwritecallback
  round-writecallback n l p w w' e = rw (put_conn-at p _ w, e) refl

  pub round-onmessage :
      (a : Source → Answers) (l p : ℕ) (w w' : World k S)
      → onmessage h (a (client p)).fuel (a (client p)).clock (a (client p)).reads p (arriving p w)
        ≡ ok w'
      → round h cb idle a l (returned ((client p, 1) ∷ [])) w ≡ ok w'
  unfolding round loop put_revents handle_all handle_source handle handleevent channel_callbacks
      setreadcallback no_callbacks setrevents State.setclosecallback State.seterrorcallback
      State.setwritecallback
  round-onmessage a l p w w' e = rw (put_conn-at p _ w, e) refl

  pub round-handlewakeup_failed :
      (n l : ℕ) (f : Fault) (w : World k S)
      → handlewakeup l (waking l w) ≡ fault f
      → round h cb idle (taking n) l (returned ((wake, 1) ∷ [])) w ≡ fault f
  unfolding round loop put_revents handle_all handle_source handleevent setreadcallback no_callbacks
      setrevents
  round-handlewakeup_failed n l f w e = rw (put_loop-at l _ w, e) refl

  -- What such a round did, if it returned.
  pub handlewakeup-round :
      (n l : ℕ) (w w' : World k S)
      → round h cb idle (taking n) l (returned ((wake, 1) ∷ [])) w ≡ ok w'
      → handlewakeup l (waking l w) ≡ ok w'
  handlewakeup-round n l w w' e = elim (Outcome-cases (handlewakeup l (waking l w))) [
    | inl (f, failed) ↦ absurd (not_ok (round-handlewakeup_failed n l f w failed) e)
    | inr (v, done) ↦ done ∙ ap ok (same_ok (round-handlewakeup n l w v done) e)
  ]

  pub onmessage-round :
      (a : Source → Answers) (l p : ℕ) (w w' : World k S)
      → round h cb idle a l (returned ((client p, 1) ∷ [])) w ≡ ok w'
      → onmessage h (a (client p)).fuel (a (client p)).clock (a (client p)).reads p (arriving p w)
        ≡ ok w'
  unfolding round loop put_revents handle_all handle_source handle handleevent channel_callbacks
      setreadcallback no_callbacks setrevents State.setclosecallback State.seterrorcallback
      State.setwritecallback
  onmessage-round a l p w w' e =
      let b = a (client p) in
      elim (Outcome-cases (onmessage h b.fuel b.clock b.reads p (arriving p w))) [
        | inl (f, failed) ↦
            let gone : round h cb idle a l (returned ((client p, 1) ∷ [])) w ≡ fault f =
              rw (put_conn-at p _ w, failed) refl in
            absurd (not_ok gone e)
        | inr (v, done) ↦ done ∙ ap ok (same_ok (round-onmessage a l p w v done) e)
      ]
