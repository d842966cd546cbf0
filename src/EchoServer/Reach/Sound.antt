-- ===== src/EchoServer/Reach/Sound.antt =====
-- What the parts of the server say of each connection, and that they go on agreeing.
use reactor_server.Base.{
  ℕ, ◌≤◌, ◌<◌, ◌≡◌, ◌≢◌, refl, sym, ap, ◌∙◌, true, false, some, List, [], ◌∷◌, arith, ℕ_discrete,
  find,
}
use reactor_server.Connection.Close.{IsGone}
use reactor_server.Connection.Live.{IsLive, Touched, Touched-loop}
use reactor_server.EchoServer.Defs.{State}
use reactor_server.Epoll.Kernel.{Kernel, Laws}
use reactor_server.TcpServer.Maps.{loop_of}
use reactor_server.World.{Task, Conn, Loop}

-- All tasks are for objects below `n`.
abbrev pub AllBelow : ℕ → List Task → Type 0
AllBelow n [] = Unit
AllBelow n (fn ∷ q) = (fn.target < n) × AllBelow n q

abbrev pub WorksBelow : ℕ → List (ℕ × List ℕ) → Type 0
WorksBelow n [] = Unit
WorksBelow n ((p, message) ∷ q) = (p < n) × WorksBelow n q

same_some : {p q : ℕ} → some p ≡ some q → p ≡ q
same_some e = ground arith

module _ (k : Kernel) (laws : Laws k) where
  open laws use {watched}

  -- The connection at `q` belongs to the loop of its descriptor, stands in the loop's map and expects
  -- input without headers. If it is open, the loop's epoll watches it and the server's map has it; if not, it is off the epoll.
  pub record Sound (q : ℕ) (w : State k) : Type 0 where
    pub at_loop : (w.objs q).loop ≡ loop_of (w.objs q).channel.fd w
    pub kept : find (w.objs q).channel.fd (w.loops (w.objs q).loop).conns ≡ some q
    pub unframed : (w.objs q).inputbuffer.sep ≡ 0
    pub open_ :
        (w.objs q).disconnect ≡ false
        → IsLive k laws q w × (find (w.objs q).channel.fd w.outer.conns ≡ some q)
    pub shut : (w.objs q).disconnect ≡ true → IsGone k laws q w

  -- Every connection ever made is sound, the server's map has open connections only, each under its
  -- descriptor, and all tasks are for connections that were made.
  pub record Inv (w : State k) : Type 0 where
    pub threads : 0 < w.outer.threadnum
    pub sound : (q : ℕ) → q < w.outer.next → Sound q w
    pub map :
        (fd p : ℕ)
        → find fd w.outer.conns ≡ some p
        → (p < w.outer.next) × ((w.objs p).channel.fd ≡ fd) × ((w.objs p).disconnect ≡ false)
    pub queues : (m : ℕ) → m ≤ w.outer.threadnum → AllBelow w.outer.next (w.loops m).taskqueue
    pub works : WorksBelow w.outer.next w.outer.user.tasks

  -- A connection's loop is one of the server's.
  pub loop_in_range :
      (q : ℕ) (w : State k)
      → 0 < w.outer.threadnum
      → Sound q w
      → (w.objs q).loop ≤ w.outer.threadnum
  loop_in_range q w pos s = rw (s.at_loop) (omega arith)

  -- Two connections have two descriptors.
  pub distinct :
      (p q : ℕ) (w : State k)
      → Sound p w
      → Sound q w
      → q ≢ p
      → (w.objs q).channel.fd ≢ (w.objs p).channel.fd
  distinct p q w sp sq ne e =
      let same : (w.objs q).loop ≡ (w.objs p).loop = rw (sq.at_loop, sp.at_loop, e) refl in
      let here : find (w.objs q).channel.fd (w.loops (w.objs q).loop).conns ≡ some p =
        rw (e, same) sp.kept in
      ne (same_some (sym sq.kept ∙ here))

  -- The kernel's view of the others, when one connection changed.
  others_watched :
      (p q : ℕ) (c : Conn) (w w' : State k)
      → Touched k laws p c w w'
      → (w.objs q).channel.fd ≢ (w.objs p).channel.fd
      → watched (w'.loops (w.objs q).loop).kernel (w.objs q).channel.fd
        ≡ watched (w.loops (w.objs q).loop).kernel (w.objs q).channel.fd
  others_watched p q c w w' t nf = elim (ℕ_discrete (w.objs q).loop c.loop) [
    | yes e ↦ rw e (t.interests (w.objs q).channel.fd (λ h. nf (h ∙ t.same_fd)))
    | no ne ↦ rw (t.other_loops (w.objs q).loop ne)
  ]

  pub conns_same :
      (p m : ℕ) (c : Conn) (w w' : State k)
      → Touched k laws p c w w'
      → (w'.loops m).conns ≡ (w.loops m).conns
  conns_same p m c w w' t = ap (λ (x : Loop k). x.conns) (Touched-loop k laws t m)

  -- The others stay sound.
  pub Sound-Touched :
      (p q : ℕ) (c : Conn) (w w' : State k)
      → Touched k laws p c w w'
      → q ≢ p
      → (w.objs q).channel.fd ≢ (w.objs p).channel.fd
      → Sound q w
      → Sound q w'
  Sound-Touched p q c w w' t ne nf s =
      let same = others_watched p q c w w' t nf in
      record {
        at_loop = rw (t.elsewhere q ne, t.outer_kept) s.at_loop;
        kept = rw (t.elsewhere q ne, conns_same p (w.objs q).loop c w w' t) s.kept;
        unframed = rw (t.elsewhere q ne) s.unframed;
        open_ =
            rw (t.elsewhere q ne, t.outer_kept)
              (λ h. (
                record { flagged = (s.open_ h).0.flagged; listed = same ∙ (s.open_ h).0.listed },
                (s.open_ h).1,
              ));
        shut =
            rw (t.elsewhere q ne)
              (λ h. record { flagged = (s.shut h).flagged; unlisted = same ∙ (s.shut h).unlisted });
      }
