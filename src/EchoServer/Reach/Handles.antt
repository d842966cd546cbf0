-- ===== src/EchoServer/Reach/Handles.antt =====
-- In a server of many clients, the handling of one client's event does not fail.
use reactor_server.Base.{
  refl, killed, fault, ℕ, ◌≤◌, ◌<◌, ◌≡◌, sym, ◌∙◌, true, false, ◌⊎◌, inl, inr, Bool-cases, ◌||◌,
  dec_lt, length, ok, arith,
}
use reactor_server.Channel.State.{
  Channel, has, epollin, epollpri, epollout, epollrdhup, handleevent, setrevents,
}
use reactor_server.Channel.State as State
use reactor_server.Connection.Defs.{
  Sent, took, refused, broken_pipe, Answers, onmessage, writecallback, channel_callbacks, handle,
}
use reactor_server.Connection.Output.{
  writecallback-rest, writecallback-refused, writecallback-broken_pipe, writecallback-all,
}
use reactor_server.EchoServer.Defs.{State as Server, callbacks, handle_quietly}
use reactor_server.EchoServer.Reach.Events.{IsOpen, IsOpen-IsLive}
use reactor_server.EchoServer.Reach.Sound.{Inv}
use mathlib.Core.Bool.{true≢false}
use reactor_server.EchoServer.Reach.Reads.{Ends, closes, onmessage-returns}
use reactor_server.Epoll.Kernel.{Kernel, Laws}
use reactor_server.TcpServer.Defs.{handlers, sendcomplete}

module _ (k : Kernel) (laws : Laws k) where
  takes :
      (io n p : ℕ) (w : Server k)
      → Inv k laws w
      → IsOpen k laws p w
      → (v : Server k) × (writecallback (handlers (callbacks io)) (took n) p w ≡ ok v)
  unfolding handlers sendcomplete callbacks handle_quietly
  takes io n p w inv o =
      let h = handlers (callbacks io) in
      elim (dec_lt n (length (w.objs p).outputbuffer.buf)) [
        | yes lt ↦ (_, writecallback-rest k laws h p n w lt)
        | no ge ↦
            let (v, done, t, live) =
              writecallback-all k laws h p n w (IsOpen-IsLive k laws p w inv o)
                (omega (arith, ge)) in
            (v, done)
      ]

  writes :
      (io : ℕ) (answer : Sent) (p : ℕ) (w : Server k)
      → Inv k laws w
      → IsOpen k laws p w
      → ((v : Server k) × (writecallback (handlers (callbacks io)) answer p w ≡ ok v))
        ⊎ ((answer ≡ broken_pipe)
            × (writecallback (handlers (callbacks io)) answer p w ≡ fault killed))
  writes io (took n) p w inv o = inl (takes io n p w inv o)
  writes io refused p w inv o =
      let h = handlers (callbacks io) in
      let (v, done) = takes io 0 p w inv o in inl (v, writecallback-refused k laws h p w ∙ done)
  writes io broken_pipe p w inv o =
      inr (refl, writecallback-broken_pipe k laws (handlers (callbacks io)) p w)

  -- The event makes the loop's thread send, and the peer reads no more.
  abbrev pub Breaks : ℕ → Answers → Type 0
  Breaks ev a =
      (has ev epollrdhup ≡ false)
      × ((has ev epollin || has ev epollpri) ≡ false)
      × (has ev epollout ≡ true)
      × (a.answer ≡ broken_pipe)

  -- Nothing to read, or the end of the peer, which comes first; or there are workers for what is read,
  -- and the answers of `read` come to an end, with fuel for two rounds over the input.
  abbrev pub HasEnd : ℕ → Answers → ℕ → Type 0
  HasEnd ev a workers =
      (has ev epollrdhup ≡ true)
      ⊎ ((has ev epollin || has ev epollpri) ≡ false)
      ⊎ ((0 < workers) × (2 ≤ a.fuel) × Ends a.reads)

  reads_return :
      (io : ℕ) (a : Answers) (p ev : ℕ) (w : Server k)
      → Inv k laws w
      → IsOpen k laws p w
      → has ev epollrdhup ≡ false
      → (has ev epollin || has ev epollpri) ≡ true
      → HasEnd ev a w.outer.user.workers
      → (v : Server k) × (onmessage (handlers (callbacks io)) a.fuel a.clock a.reads p w ≡ ok v)
  reads_return io a p ev w inv o no_end readable (inl end) = absurd (true≢false (sym end ∙ no_end))
  reads_return io a p ev w inv o no_end readable (inr (inl unreadable)) =
      absurd (true≢false (sym readable ∙ unreadable))
  reads_return io a p ev w inv o no_end readable (inr (inr (pos, fuel, ends))) =
      onmessage-returns k laws io a.fuel a.clock a.reads p w inv o pos fuel ends

  pub handle-returns :
      (io : ℕ) (a : Answers) (p ev : ℕ) (w : Server k)
      → Inv k laws w
      → IsOpen k laws p w
      → (w.objs p).channel.revents ≡ ev
      → HasEnd ev a w.outer.user.workers
      → ((v : Server k) × (handle (handlers (callbacks io)) a p w ≡ ok v))
        ⊎ (Breaks ev a × (handle (handlers (callbacks io)) a p w ≡ fault killed))
  unfolding handle handleevent channel_callbacks State.setreadcallback State.setclosecallback
      State.seterrorcallback State.setwritecallback
  handle-returns io a p ev w inv o e h =
      let (v, v', done, done') = closes k laws io p w inv o in
      elim (Bool-cases (has ev epollrdhup)) [
        | inl end ↦ inl (v, rw (e, end) done)
        | inr no_end ↦ elim (Bool-cases (has ev epollin || has ev epollpri)) [
          | inl readable ↦
              let (u, read) = reads_return io a p ev w inv o no_end readable h in
              inl (u, rw (e, no_end, readable) read)
          | inr unreadable ↦ elim (Bool-cases (has ev epollout)) [
            | inl writable ↦ elim (writes io a.answer p w inv o) [
              | inl (u, sent) ↦ inl (u, rw (e, no_end, unreadable, writable) sent)
              | inr (broken, ends) ↦ inr (
                (no_end, unreadable, writable, broken),
                rw (e, no_end, unreadable, writable) ends,
              )
            ]
            | inr unwritable ↦ inl (v', rw (e, no_end, unreadable, unwritable) done')
          ]
        ]
      ]
