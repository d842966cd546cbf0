-- ===== src/Connection/Live.antt =====
-- A connection that its loop watches, and what a method of its channel changes.
use reactor_server.Base.{
  ℕ, ◌≡◌, ◌≢◌, refl, sym, ap, ◌∙◌, exits, fault, some, Outcome, ok, arith, ℕ_discrete,
}
use reactor_server.Channel.State.{Channel}
use reactor_server.Channel.Sync.{
  Change, change, wanted, IsWatched, IsStale, all_off, read_on, change-IsWatched, change-stale,
  remove-IsStale,
}
use reactor_server.Channel.Watch.{remove}
use reactor_server.Epoll.Kernel.{Kernel, Laws}
use reactor_server.World.{Conn, World, put_conn, put_loop, on_channel}

fd-wanted : (c : Change) (ch : Channel) → (wanted c ch).fd ≡ ch.fd
fd-wanted read_on ch = refl
fd-wanted _ ch = refl

module _ (k : Kernel) (laws : Laws k) {S : Type 0} where
  open laws use {watched}

  abbrev pub IsLive : ℕ → World k S → Type 0
  IsLive p w = IsWatched k laws (w.objs p).channel (w.loops (w.objs p).loop).kernel

  -- From `w` to `w'` the connection at `p` became `c`; of the rest only the interest of the
  -- connection's descriptor in the epoll of its loop may have changed.
  pub record Touched (p : ℕ) (c : Conn) (w w' : World k S) : Type 0 where
    pub now : w'.objs p ≡ c
    pub elsewhere : (q : ℕ) → q ≢ p → w'.objs q ≡ w.objs q
    pub same_loop : c.loop ≡ (w.objs p).loop
    pub same_fd : c.channel.fd ≡ (w.objs p).channel.fd
    pub loop_kept : w'.loops c.loop ≡ record (w.loops c.loop) { kernel = (w'.loops c.loop).kernel }
    pub other_loops : (m : ℕ) → m ≢ c.loop → w'.loops m ≡ w.loops m
    pub interests :
        (j : ℕ)
        → j ≢ c.channel.fd
        → watched (w'.loops c.loop).kernel j ≡ watched (w.loops c.loop).kernel j
    pub outer_kept : w'.outer ≡ w.outer

  -- The world in which a method of the channel left `ch` and the kernel's state `s`.
  abbrev pub reacted : ℕ → Channel → k.State → World k S → World k S
  reacted p ch s w =
      put_loop (w.objs p).loop (record (w.loops (w.objs p).loop) { kernel = s })
        (put_conn p (record (w.objs p) { channel = ch }) w)

  pub on_channel-eq :
      (method : Channel → k.State → Outcome (Channel × k.State)) (p : ℕ) (w : World k S)
      (ch : Channel) (s : k.State)
      → method (w.objs p).channel (w.loops (w.objs p).loop).kernel ≡ ok (ch, s)
      → on_channel method p w ≡ ok (reacted p ch s w)
  unfolding on_channel
  on_channel-eq method p w ch s e = rw e

  pub reacted-kernel :
      (p : ℕ) (ch : Channel) (s : k.State) (w : World k S)
      → ((reacted p ch s w).loops (w.objs p).loop).kernel ≡ s
  reacted-kernel p ch s w = ground arith

  pub reacted-Touched :
      (p : ℕ) (ch : Channel) (s : k.State) (w : World k S)
      → ch.fd ≡ (w.objs p).channel.fd
      → ((j : ℕ) → j ≢ ch.fd → watched s j ≡ watched (w.loops (w.objs p).loop).kernel j)
      → Touched p (record (w.objs p) { channel = ch }) w (reacted p ch s w)
  reacted-Touched p ch s w e others = record {
    now = ground arith;
    elsewhere = λ q ne. ground arith;
    same_loop = refl;
    same_fd = e;
    loop_kept = ground arith;
    other_loops = λ m ne. ground arith;
    interests = λ j ne. rw (reacted-kernel p ch s w) (others j ne);
    outer_kept = refl;
  }

  -- A change of the events of a live connection's channel.
  pub on_channel-change :
      (c : Change) (p : ℕ) (w : World k S)
      → IsLive p w
      → (w' : World k S) × (on_channel (change k c) p w ≡ ok w')
        × Touched p (record (w.objs p) { channel = wanted c (w.objs p).channel }) w w'
        × IsWatched k laws (wanted c (w.objs p).channel) (w'.loops (w.objs p).loop).kernel
  on_channel-change c p w live =
      let (s, done, watches, others) =
        change-IsWatched k laws c (w.objs p).channel (w.loops (w.objs p).loop).kernel live in
      let ch = wanted c (w.objs p).channel in
      (
        reacted p ch s w,
        on_channel-eq (change k c) p w ch s done,
        reacted-Touched p ch s w (fd-wanted c (w.objs p).channel)
            (λ j ne. others j (λ e. ne (e ∙ sym (fd-wanted c (w.objs p).channel)))),
        rw (reacted-kernel p ch s w) watches,
      )

  -- `remove` on a live connection's channel.
  pub on_channel-remove :
      (p : ℕ) (w : World k S)
      → IsLive p w
      → (w' : World k S) × (on_channel (remove k) p w ≡ ok w')
        × Touched p (record (w.objs p) { channel = wanted all_off (w.objs p).channel }) w w'
        × IsStale k laws (wanted all_off (w.objs p).channel) (w'.loops (w.objs p).loop).kernel
  on_channel-remove p w live =
      let (s, done, stale, others) =
        remove-IsStale k laws (w.objs p).channel (w.loops (w.objs p).loop).kernel live in
      let ch = wanted all_off (w.objs p).channel in
      (
        reacted p ch s w,
        on_channel-eq (remove k) p w ch s done,
        reacted-Touched p ch s w refl others,
        rw (reacted-kernel p ch s w) stale,
      )

  -- Whatever change is asked of a channel that was removed, the process ends.
  pub on_channel-stale :
      (c : Change) (p : ℕ) (w : World k S)
      → IsStale k laws (w.objs p).channel (w.loops (w.objs p).loop).kernel
      → on_channel (change k c) p w ≡ fault exits
  unfolding on_channel
  on_channel-stale c p w stale = rw (change-stale k laws c (w.objs p).channel _ stale)

  -- A step on a connection's own fields, followed by one on its channel.
  pub put_conn-Touched :
      (p : ℕ) (c c' : Conn) (w w' : World k S)
      → c.loop ≡ (w.objs p).loop
      → c.channel.fd ≡ (w.objs p).channel.fd
      → Touched p c' (put_conn p c w) w'
      → Touched p c' w w'
  put_conn-Touched p c c' w w' el ef t = record {
    now = t.now;
    elsewhere = λ q ne. t.elsewhere q ne ∙ ground arith;
    same_loop = t.same_loop ∙ ground arith;
    same_fd = t.same_fd ∙ ground arith;
    loop_kept = t.loop_kept;
    other_loops = t.other_loops;
    interests = t.interests;
    outer_kept = t.outer_kept;
  }

  pub put_conn_self : (p : ℕ) (c : Conn) (w : World k S) → (put_conn p c w).objs p ≡ c
  put_conn_self p c w = ground arith

  -- The same, where the connection at `p` is known to be `c`.
  on_channel-change_at :
      (a : Change) (p : ℕ) (c : Conn) (w : World k S)
      → w.objs p ≡ c
      → IsWatched k laws c.channel (w.loops c.loop).kernel
      → (w' : World k S) × (on_channel (change k a) p w ≡ ok w')
        × Touched p (record c { channel = wanted a c.channel }) w w'
        × IsLive p w'
  on_channel-change_at a p c w e live =
      let (w', done, t, watches) = on_channel-change a p w (rw e live) in
      let t' : Touched p (record c { channel = wanted a c.channel }) w w' = rw e at t in
      (w', done, t', rw (t'.now) (rw e at watches))

  pub on_channel-remove_at :
      (p : ℕ) (c : Conn) (w : World k S)
      → w.objs p ≡ c
      → IsWatched k laws c.channel (w.loops c.loop).kernel
      → (w' : World k S) × (on_channel (remove k) p w ≡ ok w')
        × Touched p (record c { channel = wanted all_off c.channel }) w w'
        × IsStale k laws (w'.objs p).channel (w'.loops (w'.objs p).loop).kernel
  on_channel-remove_at p c w e live =
      let (w', done, t, stale) = on_channel-remove p w (rw e live) in
      let t' : Touched p (record c { channel = wanted all_off c.channel }) w w' = rw e at t in
      (w', done, t', rw (t'.now) (rw e at stale))

  -- A method that first changes fields of a live connection other than the channel, and then the
  -- events of its channel.
  pub put_conn-change :
      (a : Change) (p : ℕ) (c : Conn) (w : World k S)
      → IsLive p w
      → c.loop ≡ (w.objs p).loop
      → c.channel ≡ (w.objs p).channel
      → (w' : World k S) × (on_channel (change k a) p (put_conn p c w) ≡ ok w')
        × Touched p (record c { channel = wanted a c.channel }) w w'
        × IsLive p w'
  put_conn-change a p c w live el ec =
      let (w', done, t, live') =
        on_channel-change_at a p c (put_conn p c w) (put_conn_self p c w) (rw (el, ec) live) in
      (w', done, put_conn-Touched p c _ w w' el (rw ec refl) t, live')

  -- A method that only changes fields of a live connection other than the channel.
  pub put_conn-keeps :
      (p : ℕ) (c : Conn) (w : World k S)
      → IsLive p w
      → c.loop ≡ (w.objs p).loop
      → c.channel ≡ (w.objs p).channel
      → Touched p c w (put_conn p c w) × IsLive p (put_conn p c w)
  put_conn-keeps p c w live el ec = (
    record {
      now = put_conn_self p c w;
      elsewhere = λ q ne. ground arith;
      same_loop = el;
      same_fd = ap (λ (ch : Channel). ch.fd) ec;
      loop_kept = refl;
      other_loops = λ m ne. refl;
      interests = λ j ne. refl;
      outer_kept = refl;
    },
    rw (put_conn_self p c w, el, ec) live,
  )

  -- A method of one connection leaves every connection on its loop and its descriptor.
  pub Touched-same :
      {p : ℕ} {c : Conn} {w w' : World k S}
      → Touched p c w w'
      → (q : ℕ)
      → ((w'.objs q).loop ≡ (w.objs q).loop) × ((w'.objs q).channel.fd ≡ (w.objs q).channel.fd)
  Touched-same {p} t q = elim (ℕ_discrete q p) [
    | yes e ↦ (rw (e, t.now) (t.same_loop), rw (e, t.now) (t.same_fd))
    | no ne ↦ (rw (t.elsewhere q ne), rw (t.elsewhere q ne))
  ]

  -- Another live connection, with another descriptor, stays live.
  pub Touched-IsLive :
      {p : ℕ} {c : Conn} {w w' : World k S}
      → Touched p c w w'
      → (q : ℕ) → q ≢ p
      → (w.objs q).loop ≡ (w.objs p).loop
      → (w.objs q).channel.fd ≢ (w.objs p).channel.fd
      → IsLive q w
      → IsLive q w'
  Touched-IsLive {c = c} {w = w} {w' = w'} t q ne el nf live = rw (t.elsewhere q ne) kept
    where
      e : (w.objs q).loop ≡ c.loop
      e = el ∙ sym t.same_loop

      old : watched (w.loops c.loop).kernel (w.objs q).channel.fd ≡ some (w.objs q).channel.events
      old = rw (← e) live.listed

      kept : IsWatched k laws (w.objs q).channel (w'.loops (w.objs q).loop).kernel
      kept = record {
        flagged = live.flagged;
        listed = rw e (t.interests (w.objs q).channel.fd (λ h. nf (h ∙ t.same_fd)) ∙ old);
      }

  -- Of every loop it keeps all but the kernel's state.
  pub Touched-loop :
      {p : ℕ} {c : Conn} {w w' : World k S}
      → Touched p c w w'
      → (m : ℕ) → w'.loops m ≡ record (w.loops m) { kernel = (w'.loops m).kernel }
  Touched-loop {c = c} t m = elim (ℕ_discrete m c.loop) [
    | yes e ↦ rw e t.loop_kept
    | no ne ↦ rw (t.other_loops m ne)
  ]
