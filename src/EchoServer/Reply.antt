-- ===== src/EchoServer/Reply.antt =====
-- A reply by `Connection::send`, from a worker by way of the loop's task queue, or from the loop's thread.
use reactor_server.Base.{
  true, ℕ, ◌≡◌, refl, ap, sym, ◌∙◌, Bool, false, List, [], ◌∷◌, ◌++◌, append-nil, length,
  length-append, take, take-append, ok, ◌==◌, if◌then◌else◌, arith,
}
use reactor_server.Connection.Output.{sendinloop-Touched}
use reactor_server.Connection.Defs.{send}
use reactor_server.Connection.Live.{IsLive}
use reactor_server.Connection.Text.{NulFree, c_str, send-NulFree}
use reactor_server.Epoll.Kernel.{Kernel, Laws}
use reactor_server.EventLoop.Defs.{isinloopthread, queueinloop, wakeup}
use reactor_server.EventLoop.Dispatch.{waking}
use reactor_server.EventLoop.Run.{handlewakeup}
use reactor_server.EventLoop.Tasks.{addressed, Serves, loop-Serves, handlewakeup-output}
use reactor_server.World.{Task, Conn, World, put_loop}

pub NulFree-append : (u v : List ℕ) → NulFree u → NulFree v → NulFree (u ++ v)
NulFree-append [] v hu hv = hv
NulFree-append (b ∷ u) v hu hv = (hu.0, NulFree-append u v hu.1 hv)

abbrev pub nul_free : List ℕ → Bool
nul_free [] = true
nul_free (b ∷ s) = if b == 0 then false else nul_free s

pub nul_free-NulFree : (s : List ℕ) → nul_free s ≡ true → NulFree s
nul_free-NulFree [] h = tt
nul_free-NulFree (b ∷ s) h = ground (arith, nul_free-NulFree s)

module _ (k : Kernel) (laws : Laws k) where
  -- A live connection is served by its loop.
  alone-Serves :
      {S : Type 0} (p : ℕ) (w : World k S)
      → IsLive k laws p w
      → Serves k laws (λ q. q ≡ p) (w.objs p).loop w
  alone-Serves p w live = record {
    at_loop = λ q e. rw e;
    live = λ q e. rw e live;
    distinct = λ q r eq er ne. absurd (ne (eq ∙ sym er));
  }

  -- The task that another thread's `send` leaves.
  abbrev reply : ℕ → List ℕ → Task
  reply p m = record { target = p; block = c_str m; size = length m }

  addressed-reply : (p : ℕ) (m : List ℕ) → addressed p (reply p m ∷ []) ≡ m
  addressed-reply p m =
      ground (arith, take-append m (0 ∷ []), append-nil (take (length m) (c_str m)))

  -- A worker's reply to a live connection whose loop has no other task: the loop's thread puts it
  -- behind what the connection has to send.
  reply-output :
      {S : Type 0} (p thread : ℕ) (m : List ℕ) (w : World k S)
      → IsLive k laws p w
      → (w.objs p).disconnect ≡ false
      → NulFree m
      → isinloopthread thread (w.loops (w.objs p).loop) ≡ false
      → (w.loops (w.objs p).loop).taskqueue ≡ []
      → (w' : World k S) × (w'' : World k S) × (send thread p (c_str m) (length m) w ≡ ok w')
        × (laws.pending (w'.loops (w.objs p).loop).kernel ≡ true)
        × (handlewakeup (w.objs p).loop (waking (w.objs p).loop w') ≡ ok w'')
        × ((w''.objs p).outputbuffer.buf ≡ (w.objs p).outputbuffer.buf ++ m)
        × IsLive k laws p w''
  unfolding queueinloop wakeup
  reply-output {S = S} p thread m w live open_ text other empty =
      let l = (w.objs p).loop in
      let x = queueinloop (reply p m) (w.loops l) in
      let w' = put_loop l x w in
      let s =
        loop-Serves k laws (λ q. q ≡ p) l x w (λ j. laws.write_watched j (w.loops l).kernel)
          (alone-Serves p w live) in
      let y = record (w'.loops l) {
        wakechannel = record (w'.loops l).wakechannel { revents = 1 };
      } in
      let v = put_loop l y w' in
      let queue : (v.loops l).taskqueue ≡ reply p m ∷ [] = ground (arith, empty) in
      let (w'', done, out, left, s') =
        handlewakeup-output k laws (λ q. q ≡ p) l v
          (loop-Serves k laws (λ q. q ≡ p) l y w' (λ j. refl) s)
          (rw queue (refl, omega (arith, length-append m (0 ∷ [])), tt)) in
      (
        w',
        w'',
        send-NulFree thread p m w text open_ ∙ rw other refl,
        ground (arith, laws.write_pending (w.loops l).kernel),
        done,
        out p refl ∙ rw queue (ap (◌++◌ (w.objs p).outputbuffer.buf) (addressed-reply p m)),
        s'.live p refl,
      )

  -- The same, where the connection at `p` is known to be `c`.
  pub reply-output_at :
      {S : Type 0} (p thread : ℕ) (m : List ℕ) (c : Conn) (w : World k S)
      → w.objs p ≡ c
      → IsLive k laws p w
      → c.disconnect ≡ false
      → NulFree m
      → isinloopthread thread (w.loops c.loop) ≡ false
      → (w.loops c.loop).taskqueue ≡ []
      → (w' : World k S) × (w'' : World k S) × (send thread p (c_str m) (length m) w ≡ ok w')
        × (laws.pending (w'.loops c.loop).kernel ≡ true)
        × (handlewakeup c.loop (waking c.loop w') ≡ ok w'')
        × ((w''.objs p).outputbuffer.buf ≡ c.outputbuffer.buf ++ m)
        × IsLive k laws p w''
  reply-output_at p thread m c w e live open_ text other empty =
      let (w', w'', sent, signalled, done, out, live') =
        reply-output p thread m w live (rw e open_) text (rw e other) (rw e empty) in
      (
        w',
        w'',
        sent,
        ap (λ l. laws.pending (w'.loops l).kernel) (ap (λ (d : Conn). d.loop) (sym e)) ∙ signalled,
        ap (λ l. handlewakeup l (waking l w')) (ap (λ (d : Conn). d.loop) (sym e)) ∙ done,
        out ∙ ap (λ (d : Conn). d.outputbuffer.buf ++ m) e,
        live',
      )

  -- The reply of the loop's own thread to a live connection.
  pub reply-output_own :
      {S : Type 0} (p thread : ℕ) (m : List ℕ) (c : Conn) (w : World k S)
      → w.objs p ≡ c
      → IsLive k laws p w
      → c.disconnect ≡ false
      → NulFree m
      → isinloopthread thread (w.loops c.loop) ≡ true
      → (w' : World k S) × (send thread p (c_str m) (length m) w ≡ ok w')
        × ((w'.objs p).outputbuffer.buf ≡ c.outputbuffer.buf ++ m)
        × ((w'.objs p).inputbuffer ≡ c.inputbuffer)
        × IsLive k laws p w'
  reply-output_own p thread m c w e live open_ text own =
      let (w', done, t, live') =
        sendinloop-Touched k laws p (c_str m) (length m) w live
          (omega (arith, length-append m (0 ∷ []))) in
      (
        w',
        send-NulFree thread p m w text (rw e open_) ∙ rw (e, own) done,
        rw (t.now, e, take-append m (0 ∷ [])) refl,
        rw (t.now, e) refl,
        live',
      )
