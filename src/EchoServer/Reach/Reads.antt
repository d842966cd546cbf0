-- ===== src/EchoServer/Reach/Reads.antt =====
-- In a state of a server of many clients, what a client sends does not fail, if workers handle it.
use reactor_server.Base.{ℕ, zero, suc, ◌≤◌, ◌<◌, ◌≡◌, refl, ap, List, [], ◌∷◌, ◌++◌, ok, arith}
use reactor_server.Connection.Close.{close-IsGone}
use reactor_server.Connection.Defs.{
  Read, got, interrupted, would_block, other_error, closed, drain, onmessage, closecallback,
  errorcallback,
}
use reactor_server.Connection.Input.{fed, keep_input-fed, pick-nothing, drain-none, drain-all}
use reactor_server.EchoServer.Defs.{
  State as Server, work_prefix, add_task, callbacks, handle_quietly,
}
use reactor_server.EchoServer.Reach.Events.{IsOpen, IsOpen-Goes, IsOpen-IsLive, own-Goes}
use reactor_server.EchoServer.Reach.Sound.{Inv}
use reactor_server.EchoServer.Way.{handle_message-worker}
use reactor_server.Epoll.Kernel.{Kernel, Laws}
use reactor_server.TcpServer.Defs.{handlers, removeconn, closeconnection, errorconnection}
use reactor_server.World.{Conn, put_conn, put_conn-at}

-- Answers of `read` that come to an end: nothing is left for now, or the peer has closed.
abbrev pub Ends : List Read → Type 0
Ends [] = ⊥
Ends (would_block ∷ reads) = Unit
Ends (closed ∷ reads) = Unit
Ends (r ∷ reads) = Ends reads

module _ (k : Kernel) (laws : Laws k) where
  pub closes :
      (io p : ℕ) (w : Server k)
      → Inv k laws w
      → IsOpen k laws p w
      → (v v' : Server k) × (closecallback (handlers (callbacks io)) p w ≡ ok v)
        × (errorcallback (handlers (callbacks io)) p w ≡ ok v')
  unfolding handlers closeconnection errorconnection removeconn callbacks handle_quietly
  closes io p w inv o =
      let (v, done, done', t, gone) =
        close-IsGone k laws (handlers (callbacks io)) p w (IsOpen-IsLive k laws p w inv o) in
      (_, _, done, done')

  -- Whatever the input holds, it is one message, for which a worker gets a task.
  drain-returns :
      (io fuel : ℕ) (clock : ℕ → ℕ) (p : ℕ) (ss : List ℕ) (w : Server k)
      → (w.objs p).inputbuffer.sep ≡ 0
      → 0 < w.outer.user.workers
      → (s : List ℕ) → (w.objs p).inputbuffer.buf ≡ s
      → (v : Server k) × (drain (handlers (callbacks io)) (suc (suc fuel)) clock 0 p ss w ≡ ok v)
  unfolding add_task
  drain-returns io fuel clock p ss w plain pos [] e = (
    w,
    drain-none (handlers (callbacks io)) (suc fuel) clock 0 p ss w
        (pick-nothing (w.objs p).inputbuffer ss e),
  )
  drain-returns io fuel clock p ss w plain pos (b ∷ s) e =
      let v =
        put_conn p
          (record (w.objs p) { inputbuffer = record { buf = []; sep = 0 }; lasttime = clock 0 })
          w in
      (
        add_task p (work_prefix ++ b ∷ s) v,
        drain-all (handlers (callbacks io)) fuel clock 0 p ss (b ∷ s) (work_prefix ++ b ∷ s) w _
            (ground (arith, e, plain)) (omega arith)
            (handle_message-worker k laws io p (b ∷ s) v pos)
            (ap (λ (d : Conn). d.inputbuffer.buf) (put_conn-at p _ w)),
      )

  onmessage-Ends :
      (io fuel : ℕ) (clock : ℕ → ℕ) (reads : List Read) (p : ℕ) (w : Server k)
      → Inv k laws w
      → IsOpen k laws p w
      → 0 < w.outer.user.workers
      → Ends reads
      → (v : Server k) × (onmessage (handlers (callbacks io)) (suc (suc fuel)) clock reads p w
          ≡ ok v)
  unfolding onmessage
  onmessage-Ends io fuel clock [] p w inv o pos ends = absurd ends
  onmessage-Ends io fuel clock (got b bytes ∷ reads) p w inv o pos ends =
      let x = fed p (b ∷ bytes) w in
      let g =
        own-Goes k laws p
          (record (w.objs p) {
            inputbuffer = record (w.objs p).inputbuffer {
              buf = (w.objs p).inputbuffer.buf ++ b ∷ bytes;
            };
          })
          w inv o refl refl refl refl in
      let (v, done) =
        onmessage-Ends io fuel clock reads p x g.inv (IsOpen-Goes k laws p w x o g) pos ends in
      (v, rw (keep_input-fed (handlers (callbacks io)) p (b ∷ bytes) w) done)
  onmessage-Ends io fuel clock (interrupted ∷ reads) p w inv o pos ends =
      onmessage-Ends io fuel clock reads p w inv o pos ends
  onmessage-Ends io fuel clock (other_error ∷ reads) p w inv o pos ends =
      onmessage-Ends io fuel clock reads p w inv o pos ends
  onmessage-Ends io fuel clock (would_block ∷ reads) p w inv o pos ends =
      drain-returns io fuel clock p [] w (inv.sound p o.made).unframed pos
        (w.objs p).inputbuffer.buf refl
  onmessage-Ends io fuel clock (closed ∷ reads) p w inv o pos ends =
      let (v, v', done, done') = closes io p w inv o in (v, done)

  -- Two units of fuel are enough.
  pub onmessage-returns :
      (io fuel : ℕ) (clock : ℕ → ℕ) (reads : List Read) (p : ℕ) (w : Server k)
      → Inv k laws w
      → IsOpen k laws p w
      → 0 < w.outer.user.workers
      → 2 ≤ fuel
      → Ends reads
      → (v : Server k) × (onmessage (handlers (callbacks io)) fuel clock reads p w ≡ ok v)
  onmessage-returns io zero clock reads p w inv o pos le ends = absurd (omega (arith, le))
  onmessage-returns io (suc zero) clock reads p w inv o pos le ends = absurd (omega (arith, le))
  onmessage-returns io (suc (suc fuel)) clock reads p w inv o pos le ends =
      onmessage-Ends io fuel clock reads p w inv o pos ends
