-- ===== src/Connection/Stream.antt =====
-- The output of a connection as a stream: what is sent, followed by what is still kept, is what was
-- given to `sendinloop`, in that order, however the kernel cuts it.
use reactor_server.Base.{
  ℕ, zero, suc, ◌≤◌, ◌≡◌, ◌≢◌, refl, sym, ◌∙◌, true, List, [], ◌∷◌, ◌++◌, append_assoc, append-nil,
  length, take, drop, take-append-drop, drop-all, Outcome, ok, ◌>>=◌, arith, ap, dec_lt,
}
use reactor_server.Channel.State.{has, with_bit, epollout}
use reactor_server.Connection.Defs.{Handlers, took, sendinloop, writecallback}
use reactor_server.Connection.Live.{IsLive, Touched, Touched-same, Touched-loop, put_conn-keeps}
use reactor_server.Connection.Output.{
  unsent, sendinloop-Touched, writecallback-rest, writecallback-all,
}
use reactor_server.Epoll.Kernel.{Kernel, Laws}
use reactor_server.World.{Conn, World, invoke, put_conn}

-- Something is given to the connection, or its socket is writable and takes so many bytes.
pub data Act : Type 0 where
  give : List ℕ → ℕ → Act
  flush : ℕ → Act

-- The block given has as many bytes as it is said to have.
abbrev pub IsWhole : Act → Type 0
IsWhole (give block n) = n ≤ length block
IsWhole (flush n) = Unit

abbrev pub given : List Act → List ℕ
given [] = []
given (give block n ∷ as_) = take n block ++ given as_
given (flush n ∷ as_) = given as_

abbrev pub AllWhole : List Act → Type 0
AllWhole [] = Unit
AllWhole (a ∷ as_) = IsWhole a × AllWhole as_

module _ {k : Kernel} {S : Type 0} (h : Handlers k S) where
  -- One act, with the bytes that it sends.
  pub act : ℕ → Act → World k S → Outcome (List ℕ × World k S)
  act p (give block n) w = do w' ← sendinloop p block n w; ok ([], w')
  act p (flush n) w = do
    w' ← writecallback h (took n) p w
    ok (take n (w.objs p).outputbuffer.buf, w')

  pub acts : ℕ → List Act → World k S → Outcome (List ℕ × World k S)
  unfolding act
  acts p [] w = ok ([], w)
  acts p (a ∷ as_) w = do
    (sent, w') ← act p a w
    (later, w'') ← acts p as_ w'
    ok (sent ++ later, w'')

given-cons : (a : Act) (as_ : List Act) → given (a ∷ as_) ≡ given (a ∷ []) ++ given as_
given-cons (give block n) as_ = rw append-nil
given-cons (flush n) as_ = refl

pub regroup :
    (s₁ s₂ o₁ o₂ o g₁ g₂ : List ℕ)
    → s₁ ++ o₁ ≡ o ++ g₁
    → s₂ ++ o₂ ≡ o₁ ++ g₂
    → (s₁ ++ s₂) ++ o₂ ≡ o ++ (g₁ ++ g₂)
regroup s₁ s₂ o₁ o₂ o g₁ g₂ e₁ e₂ =
    append_assoc s₁ s₂ o₂
    ∙ ap (◌++◌ s₁) e₂
    ∙ sym (append_assoc s₁ o₁ g₂)
    ∙ ap (λ l. l ++ g₂) e₁
    ∙ append_assoc o g₁ g₂

drop-nil : (n : ℕ) → drop {A = ℕ} n [] ≡ []
drop-nil zero = refl
drop-nil (suc n) = refl

has-with_bit : (x : ℕ) → has (with_bit x epollout) epollout ≡ true
has-with_bit x = ground arith

-- What the acts leave as it is.
pub record Kept {k : Kernel} {S : Type 0} (p : ℕ) (w w' : World k S) : Type 0 where
  pub same_loop : (w'.objs p).loop ≡ (w.objs p).loop
  pub same_end : (w'.objs p).disconnect ≡ (w.objs p).disconnect
  pub same_rest : (m : ℕ) → w'.loops m ≡ record (w.loops m) { kernel = (w'.loops m).kernel }

Kept-Touched :
    (k : Kernel) (laws : Laws k) {S : Type 0} {p : ℕ} {c : Conn} {w w' : World k S}
    → Touched k laws p c w w'
    → c.disconnect ≡ (w.objs p).disconnect
    → Kept p w w'
Kept-Touched k laws {p = p} t e = record {
  same_loop = (Touched-same k laws t p).0;
  same_end = rw (t.now) e;
  same_rest = Touched-loop k laws t;
}

module _ (k : Kernel) (laws : Laws k) {S : Type 0} (h : Handlers k S) (p : ℕ)
    (quiet : (w : World k S) → invoke h.sendcompletecallback_ p w ≡ ok w) where
  -- The connection is watched, and for writing whenever it has something to send.
  pub record IsFlowing (w : World k S) : Type 0 where
    pub live : IsLive k laws p w
    pub watched_for :
        (w.objs p).outputbuffer.buf ≢ [] → has (w.objs p).channel.events epollout ≡ true

  pub give-IsFlowing :
      (block : List ℕ) (n : ℕ) (w : World k S)
      → IsFlowing w
      → n ≤ length block
      → (w' : World k S) × (sendinloop p block n w ≡ ok w')
        × ((w'.objs p).outputbuffer.buf ≡ (w.objs p).outputbuffer.buf ++ take n block)
        × IsFlowing w'
        × Kept p w w'
  give-IsFlowing block n w f whole =
      let (w', done, t, live') = sendinloop-Touched k laws p block n w f.live whole in
      (
        w',
        done,
        rw (t.now) refl,
        record {
          live = live';
          watched_for = λ ne. rw (t.now) (has-with_bit (w.objs p).channel.events);
        },
        Kept-Touched k laws t refl,
      )

  pub flush-IsFlowing :
      (n : ℕ) (w : World k S)
      → IsFlowing w
      → (w' : World k S) × (writecallback h (took n) p w ≡ ok w')
        × (take n (w.objs p).outputbuffer.buf ++ (w'.objs p).outputbuffer.buf
            ≡ (w.objs p).outputbuffer.buf)
        × IsFlowing w'
        × Kept p w w'
  flush-IsFlowing n w f = elim (dec_lt n (length (w.objs p).outputbuffer.buf)) [
    | yes lt ↦
        let w' = put_conn p (unsent n (w.objs p)) w in
        let (t, live') = put_conn-keeps k laws p (unsent n (w.objs p)) w f.live refl refl in
        (
          w',
          writecallback-rest k laws h p n w lt,
          rw (t.now) (take-append-drop n (w.objs p).outputbuffer.buf),
          record {
            live = live';
            watched_for =
                λ ne. rw (t.now) (f.watched_for (λ e. ne (rw (t.now) (rw e (drop-nil n)))));
          },
          Kept-Touched k laws t refl,
        )
    | no ge ↦
        let (w', done, t, live') = writecallback-all k laws h p n w f.live (omega arith) in
        (
          w',
          done ∙ quiet w',
          rw (t.now) (take-append-drop n (w.objs p).outputbuffer.buf),
          record {
            live = live';
            watched_for = λ ne.
                absurd (ne (rw (t.now) (drop-all n (w.objs p).outputbuffer.buf (omega arith))));
          },
          Kept-Touched k laws t refl,
        )
  ]

  act-IsFlowing :
      (a : Act) (w : World k S)
      → IsFlowing w
      → IsWhole a
      → (sent : List ℕ) × (w' : World k S) × (act h p a w ≡ ok (sent, w'))
        × (sent ++ (w'.objs p).outputbuffer.buf ≡ (w.objs p).outputbuffer.buf ++ given (a ∷ []))
        × IsFlowing w'
  unfolding act
  act-IsFlowing (give block n) w f whole =
      let (w', done, out, f', kept) = give-IsFlowing block n w f whole in
      ([], w', rw done refl, rw append-nil out, f')
  act-IsFlowing (flush n) w f whole =
      let (w', done, out, f', kept) = flush-IsFlowing n w f in
      (take n (w.objs p).outputbuffer.buf, w', rw done refl, rw append-nil out, f')

  -- A connection that its loop watches, with a callback for completed sends that changes nothing.
  -- Whatever the loop's thread gives to it, in blocks of at least their stated size, and however
  -- much of it the kernel takes each time, the bytes sent, followed by those still kept, are those
  -- kept at first, followed by those given; and as long as something is kept, the kernel watches
  -- the socket for writing.
  pub acts-stream :
      (as_ : List Act) (w : World k S)
      → IsFlowing w
      → AllWhole as_
      → (sent : List ℕ) × (w' : World k S) × (acts h p as_ w ≡ ok (sent, w'))
        × (sent ++ (w'.objs p).outputbuffer.buf ≡ (w.objs p).outputbuffer.buf ++ given as_)
        × IsFlowing w'
  unfolding acts
  acts-stream [] w f whole = ([], w, refl, sym (append-nil _), f)
  acts-stream (a ∷ as_) w f whole =
      let (sent, w₁, done, e, f₁) = act-IsFlowing a w f whole.0 in
      let (later, w₂, done', e', f₂) = acts-stream as_ w₁ f₁ whole.1 in
      (
        sent ++ later,
        w₂,
        rw done (rw done'),
        rw (given-cons a as_) (regroup sent later _ _ _ _ _ e e'),
        f₂,
      )
