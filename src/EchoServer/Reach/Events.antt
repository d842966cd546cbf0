-- ===== src/EchoServer/Reach/Events.antt =====
-- The events of one client in a server of many.
use reactor_server.Base.{
  not_ok, fault, ℕ, zero, suc, ◌<◌, ◌≡◌, refl, sym, subst, ◌∙◌, false, inl, inr, Bool-cases, ◌||◌,
  dec_lt, List, [], ◌∷◌, ◌++◌, length, ok, Outcome-cases, same_ok, arith,
}
use reactor_server.Buffer.{Buffer, Picked, pickmessage, pick_all, pick_framed, erase, substr}
use reactor_server.Channel.State.{
  Channel, has, epollin, epollpri, epollout, epollrdhup, handleevent, setrevents,
}
use reactor_server.Channel.State as State
use reactor_server.Connection.Close.{close-IsGone}
use reactor_server.Connection.Defs.{
  Sent, took, refused, broken_pipe, Answers, Read, got, interrupted, would_block, other_error,
  closed, drain, onmessage, closecallback, errorcallback, writecallback, channel_callbacks, handle,
}
use reactor_server.Connection.Input.{fed, keep_input-fed}
use reactor_server.Connection.Live.{IsLive, put_conn-keeps}
use reactor_server.Connection.Output.{
  unsent, writecallback-rest, writecallback-refused, writecallback-broken_pipe, writecallback-all,
}
use reactor_server.EchoServer.Defs.{State as Server, callbacks, handle_message, handle_quietly}
use reactor_server.EchoServer.Reach.Ends.{Handled, Goes-Handled, then-Handled, close-Handled}
use reactor_server.EchoServer.Reach.Moves.{Goes, then-Goes, touch-Goes}
use reactor_server.EchoServer.Reach.Sends.{handle_message-Goes}
use reactor_server.EchoServer.Reach.Sound.{Inv}
use reactor_server.Epoll.Kernel.{Kernel, Laws}
use reactor_server.TcpServer.Defs.{
  handlers, removeconn, closeconnection, errorconnection, sendcomplete,
}
use reactor_server.TcpServer.Defs as TcpServer
use reactor_server.World.{Conn, put_conn}

-- A buffer stays of its kind.
pickmessage-sep :
    (b : Buffer) (ss : List ℕ) (r : Picked) → pickmessage b ss ≡ ok r → r.rest.sep ≡ b.sep
unfolding pickmessage pick_all pick_framed erase substr
pickmessage-sep b ss r e = ground arith

module _ (k : Kernel) (laws : Laws k) where
  -- A connection that was made and is open.
  pub record IsOpen (p : ℕ) (w : Server k) : Type 0 where
    pub made : p < w.outer.next
    pub is_open : (w.objs p).disconnect ≡ false

  pub IsOpen-Goes : (p : ℕ) (w w' : Server k) → IsOpen p w → Goes k laws w w' → IsOpen p w'
  IsOpen-Goes p w w' o g = record {
    made = rw (g.same_next) o.made;
    is_open = g.same_end p ∙ o.is_open;
  }

  pub IsOpen-IsLive : (p : ℕ) (w : Server k) → Inv k laws w → IsOpen p w → IsLive k laws p w
  IsOpen-IsLive p w inv o = ((inv.sound p o.made).open_ o.is_open).0

  -- A change of fields other than the channel.
  pub own-Goes :
      (p : ℕ) (c : Conn) (w : Server k)
      → Inv k laws w
      → IsOpen p w
      → c.loop ≡ (w.objs p).loop
      → c.channel ≡ (w.objs p).channel
      → c.disconnect ≡ (w.objs p).disconnect
      → c.inputbuffer.sep ≡ (w.objs p).inputbuffer.sep
      → Goes k laws w (put_conn p c w)
  own-Goes p c w inv o el ec ed es =
      let (t, live) = put_conn-keeps k laws p c w (IsOpen-IsLive p w inv o) el ec in
      touch-Goes k laws p c w (put_conn p c w) inv o.made o.is_open t ed es live

  pub drain-Goes :
      (io fuel : ℕ) (clock : ℕ → ℕ) (round p : ℕ) (ss : List ℕ) (w w' : Server k)
      → Inv k laws w
      → IsOpen p w
      → drain (handlers (callbacks io)) fuel clock round p ss w ≡ ok w'
      → Goes k laws w w'
  unfolding drain handlers TcpServer.onmessage callbacks
  drain-Goes io zero clock round p ss w w' inv o e = absurd (not_ok refl e)
  drain-Goes io (suc fuel) clock round p ss w w' inv o e =
      let h = handlers (callbacks io) in
      elim (Outcome-cases (pickmessage (w.objs p).inputbuffer ss)) [
        | inl (f, failed) ↦
            let gone : drain h (suc fuel) clock round p ss w ≡ fault f = rw failed refl in
            absurd (not_ok gone e)
        | inr (picked, found) ↦
            let w₁ = put_conn p (record (w.objs p) { inputbuffer = picked.rest }) w in
            let w₂ = put_conn p (record (w₁.objs p) { lasttime = clock round }) w₁ in
            let g₁ =
              own-Goes p (record (w.objs p) { inputbuffer = picked.rest }) w inv o refl refl refl
                (pickmessage-sep (w.objs p).inputbuffer ss picked found) in
            let o₁ = IsOpen-Goes p w w₁ o g₁ in
            let g₂ =
              own-Goes p (record (w₁.objs p) { lasttime = clock round }) w₁ g₁.inv o₁ refl refl refl
                refl in
            let o₂ = IsOpen-Goes p w₁ w₂ o₁ g₂ in
            elim (Bool-cases picked.found) [
              | inr none_ ↦
                  let ends : drain h (suc fuel) clock round p ss w ≡ ok w₁ =
                    rw (found, none_) refl in
                  subst (Goes k laws w) (same_ok ends e) g₁
              | inl some_ ↦ elim (Outcome-cases (handle_message io p picked.ss w₂)) [
                | inl (f, failed) ↦
                    let gone : drain h (suc fuel) clock round p ss w ≡ fault f =
                      rw (found, some_, failed) refl in
                    absurd (not_ok gone e)
                | inr (r, handled) ↦
                    let g₃ =
                      handle_message-Goes k laws io p picked.ss r.0 w₂ r.1 g₂.inv o₂.made handled in
                    let here : drain h (suc fuel) clock round p ss w
                        ≡ drain h fuel clock (suc round) p r.0 r.1 =
                      rw (found, some_, handled) refl in
                    then-Goes k laws (then-Goes k laws g₁ (then-Goes k laws g₂ g₃)) (
                      drain-Goes io fuel clock (suc round) p r.0 r.1 w' g₃.inv
                        (IsOpen-Goes p w₂ r.1 o₂ g₃) (sym here ∙ e))
              ]
            ]
      ]

  -- The two ends of a connection.
  closecallback-Handled :
      (io p : ℕ) (w w' : Server k)
      → Inv k laws w
      → IsOpen p w
      → closecallback (handlers (callbacks io)) p w ≡ ok w'
      → Handled k laws p w w'
  unfolding handlers closeconnection removeconn callbacks handle_quietly
  closecallback-Handled io p w w' inv o e =
      let (v, done, done', t, gone) =
        close-IsGone k laws (handlers (callbacks io)) p w (IsOpen-IsLive p w inv o) in
      subst (Handled k laws p w) (same_ok done e) (close-Handled k laws p w v inv o.made t gone)

  errorcallback-Handled :
      (io p : ℕ) (w w' : Server k)
      → Inv k laws w
      → IsOpen p w
      → errorcallback (handlers (callbacks io)) p w ≡ ok w'
      → Handled k laws p w w'
  unfolding handlers errorconnection removeconn callbacks handle_quietly
  errorcallback-Handled io p w w' inv o e =
      let (v, done, done', t, gone) =
        close-IsGone k laws (handlers (callbacks io)) p w (IsOpen-IsLive p w inv o) in
      subst (Handled k laws p w) (same_ok done' e) (close-Handled k laws p w v inv o.made t gone)

  onmessage-Handled :
      (io fuel : ℕ) (clock : ℕ → ℕ) (reads : List Read) (p : ℕ) (w w' : Server k)
      → Inv k laws w
      → IsOpen p w
      → onmessage (handlers (callbacks io)) fuel clock reads p w ≡ ok w'
      → Handled k laws p w w'
  unfolding onmessage
  onmessage-Handled io fuel clock [] p w w' inv o e = absurd (not_ok refl e)
  onmessage-Handled io fuel clock (got b bytes ∷ reads) p w w' inv o e =
      let h = handlers (callbacks io) in
      let v = fed p (b ∷ bytes) w in
      let g =
        own-Goes p
          (record (w.objs p) {
            inputbuffer = record (w.objs p).inputbuffer {
              buf = (w.objs p).inputbuffer.buf ++ b ∷ bytes;
            };
          })
          w inv o refl refl refl refl in
      let here : onmessage h fuel clock (got b bytes ∷ reads) p w
          ≡ onmessage h fuel clock reads p v =
        rw (keep_input-fed h p (b ∷ bytes) w) refl in
      then-Handled k laws g
        (onmessage-Handled io fuel clock reads p v w' g.inv (IsOpen-Goes p w v o g) (sym here ∙ e))
  onmessage-Handled io fuel clock (interrupted ∷ reads) p w w' inv o e =
      onmessage-Handled io fuel clock reads p w w' inv o e
  onmessage-Handled io fuel clock (other_error ∷ reads) p w w' inv o e =
      onmessage-Handled io fuel clock reads p w w' inv o e
  onmessage-Handled io fuel clock (would_block ∷ reads) p w w' inv o e =
      Goes-Handled k laws p w w' (drain-Goes io fuel clock 0 p [] w w' inv o e)
  onmessage-Handled io fuel clock (closed ∷ reads) p w w' inv o e =
      closecallback-Handled io p w w' inv o e

  took-Handled :
      (io n p : ℕ) (w w' : Server k)
      → Inv k laws w
      → IsOpen p w
      → writecallback (handlers (callbacks io)) (took n) p w ≡ ok w'
      → Handled k laws p w w'
  unfolding handlers sendcomplete callbacks handle_quietly
  took-Handled io n p w w' inv o e =
      let h = handlers (callbacks io) in
      elim (dec_lt n (length (w.objs p).outputbuffer.buf)) [
        | yes lt ↦ subst (Handled k laws p w) (same_ok (writecallback-rest k laws h p n w lt) e) (
            Goes-Handled k laws p w _
              (own-Goes p (unsent n (w.objs p)) w inv o refl refl refl refl))
        | no ge ↦
            let (v, done, t, live) =
              writecallback-all k laws h p n w (IsOpen-IsLive p w inv o) (omega (arith, ge)) in
            subst (Handled k laws p w) (same_ok done e) (
              Goes-Handled k laws p w v
                (touch-Goes k laws p _ w v inv o.made o.is_open t refl refl live))
      ]

  writecallback-Handled :
      (io : ℕ) (answer : Sent) (p : ℕ) (w w' : Server k)
      → Inv k laws w
      → IsOpen p w
      → writecallback (handlers (callbacks io)) answer p w ≡ ok w'
      → Handled k laws p w w'
  writecallback-Handled io (took n) p w w' inv o e = took-Handled io n p w w' inv o e
  writecallback-Handled io refused p w w' inv o e =
      took-Handled io 0 p w w' inv o
        (sym (writecallback-refused k laws (handlers (callbacks io)) p w) ∙ e)
  writecallback-Handled io broken_pipe p w w' inv o e =
      absurd (not_ok (writecallback-broken_pipe k laws (handlers (callbacks io)) p w) e)

  -- Whatever is reported for it.
  pub handle-Handled :
      (io : ℕ) (a : Answers) (p : ℕ) (w w' : Server k)
      → Inv k laws w
      → IsOpen p w
      → handle (handlers (callbacks io)) a p w ≡ ok w'
      → Handled k laws p w w'
  unfolding handle handleevent channel_callbacks State.setreadcallback State.setclosecallback
      State.seterrorcallback State.setwritecallback
  handle-Handled io a p w w' inv o e =
      let r = (w.objs p).channel.revents in
      elim (Bool-cases (has r epollrdhup)) [
        | inl end ↦ closecallback-Handled io p w w' inv o (rw end at e)
        | inr no_end ↦ elim (Bool-cases (has r epollin || has r epollpri)) [
          | inl readable ↦
              onmessage-Handled io a.fuel a.clock a.reads p w w' inv o (rw (no_end, readable) at e)
          | inr unreadable ↦ elim (Bool-cases (has r epollout)) [
            | inl writable ↦
                writecallback-Handled io a.answer p w w' inv o
                  (rw (no_end, unreadable, writable) at e)
            | inr unwritable ↦
                errorcallback-Handled io p w w' inv o (rw (no_end, unreadable, unwritable) at e)
          ]
        ]
      ]
