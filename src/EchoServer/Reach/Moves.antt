-- ===== src/EchoServer/Reach/Moves.antt =====
-- The four kinds of change of which all steps of an echo server consist, but for a new connection.
use mathlib.Core.Bool.{true≢false}
use reactor_server.Base.{ℕ, ◌≤◌, ◌<◌, ◌≡◌, ◌≢◌, refl, sym, ap, subst, ◌∙◌, false, arith, ℕ_discrete}
use reactor_server.Connection.Live.{IsLive, Touched, Touched-same, Touched-loop}
use reactor_server.EchoServer.Defs.{Echo, State}
use reactor_server.EchoServer.Reach.Sound.{
  AllBelow, WorksBelow, Inv, distinct, conns_same, Sound-Touched,
}
use reactor_server.Epoll.Kernel.{Kernel, Laws}
use reactor_server.TcpServer.Defs.{Tcp}
use reactor_server.World.{Conn, Loop, put_loop}

module _ (k : Kernel) (laws : Laws k) where
  open laws use {watched}

  -- What leaves every connection open or closed as it was, and makes none.
  pub record Goes (w w' : State k) : Type 0 where
    pub inv : Inv k laws w'
    pub same_next : w'.outer.next ≡ w.outer.next
    pub same_threadnum : w'.outer.threadnum ≡ w.outer.threadnum
    pub same_workers : w'.outer.user.workers ≡ w.outer.user.workers
    pub same_loop : (q : ℕ) → (w'.objs q).loop ≡ (w.objs q).loop
    pub same_end : (q : ℕ) → (w'.objs q).disconnect ≡ (w.objs q).disconnect

  pub stays : (w : State k) → Inv k laws w → Goes w w
  stays w inv = record {
    inv = inv;
    same_next = refl;
    same_threadnum = refl;
    same_workers = refl;
    same_loop = λ q. refl;
    same_end = λ q. refl;
  }

  pub then-Goes : {w w' w'' : State k} → Goes w w' → Goes w' w'' → Goes w w''
  then-Goes g g' = record {
    inv = g'.inv;
    same_next = g'.same_next ∙ g.same_next;
    same_threadnum = g'.same_threadnum ∙ g.same_threadnum;
    same_workers = g'.same_workers ∙ g.same_workers;
    same_loop = λ q. g'.same_loop q ∙ g.same_loop q;
    same_end = λ q. g'.same_end q ∙ g.same_end q;
  }

  pub queue_same :
      (p m : ℕ) (c : Conn) (w w' : State k)
      → Touched k laws p c w w'
      → (w'.loops m).taskqueue ≡ (w.loops m).taskqueue
  queue_same p m c w w' t = ap (λ (x : Loop k). x.taskqueue) (Touched-loop k laws t m)

  Touched-end :
      (p q : ℕ) (c : Conn) (w w' : State k)
      → Touched k laws p c w w'
      → c.disconnect ≡ (w.objs p).disconnect
      → (w'.objs q).disconnect ≡ (w.objs q).disconnect
  Touched-end p q c w w' t e = elim (ℕ_discrete q p) [
    | yes same ↦ rw (same, t.now) e
    | no ne ↦ rw (t.elsewhere q ne)
  ]

  -- A change of an open connection that stays open and watched.
  pub touch-Goes :
      (p : ℕ) (c : Conn) (w w' : State k)
      → Inv k laws w
      → p < w.outer.next
      → (w.objs p).disconnect ≡ false
      → Touched k laws p c w w'
      → c.disconnect ≡ (w.objs p).disconnect
      → c.inputbuffer.sep ≡ (w.objs p).inputbuffer.sep
      → IsLive k laws p w'
      → Goes w w'
  touch-Goes p c w w' inv below is_open t e es live =
      let sp = inv.sound p below in
      let same = Touched-same k laws t in
      record {
        inv = record {
          threads = rw (t.outer_kept) inv.threads;
          sound = λ q lt. elim (ℕ_discrete q p) [
            | yes eq ↦ rw eq (record {
              at_loop = rw ((same p).0, (same p).1, t.outer_kept) sp.at_loop;
              kept =
                  rw ((same p).0, (same p).1, conns_same k laws p (w.objs p).loop c w w' t) sp.kept;
              unframed = rw (t.now) (es ∙ sp.unframed);
              open_ = λ h. (live, rw ((same p).1, t.outer_kept) ((sp.open_ is_open).1));
              shut = λ h. absurd (true≢false (sym h ∙ Touched-end p p c w w' t e ∙ is_open));
            })
            | no ne ↦
                let lt' : q < w.outer.next = subst (λ (o : Tcp Echo). q < o.next) t.outer_kept lt in
                Sound-Touched k laws p q c w w' t ne (distinct k laws p q w sp (inv.sound q lt') ne)
                  (inv.sound q lt')
          ];
          map = λ fd q found.
              let old = inv.map fd q (rw (← t.outer_kept) found) in
              (rw (t.outer_kept) (old.0), (same q).1 ∙ old.1, Touched-end p q c w w' t e ∙ old.2);
          queues = λ m le.
              rw (t.outer_kept, queue_same p m c w w' t)
                (inv.queues m (subst (λ (o : Tcp Echo). m ≤ o.threadnum) t.outer_kept le));
          works = rw (t.outer_kept) inv.works;
        };
        same_next = ap (λ (o : Tcp Echo). o.next) t.outer_kept;
        same_threadnum = ap (λ (o : Tcp Echo). o.threadnum) t.outer_kept;
        same_workers = ap (λ (o : Tcp Echo). o.user.workers) t.outer_kept;
        same_loop = λ q. (Touched-same k laws t q).0;
        same_end = λ q. Touched-end p q c w w' t e;
      }

  loop_conns :
      (l m : ℕ) (x : Loop k) (w : State k)
      → x.conns ≡ (w.loops l).conns
      → ((put_loop l x w).loops m).conns ≡ (w.loops m).conns
  loop_conns l m x w e = elim (ℕ_discrete l m) [
    | yes same ↦ rw (← same) (ground arith)
    | no ne ↦ ground arith
  ]

  loop_watched :
      (l m j : ℕ) (x : Loop k) (w : State k)
      → watched x.kernel j ≡ watched (w.loops l).kernel j
      → watched ((put_loop l x w).loops m).kernel j ≡ watched (w.loops m).kernel j
  loop_watched l m j x w e = elim (ℕ_discrete l m) [
    | yes same ↦ rw (← same) (ground arith)
    | no ne ↦ ground arith
  ]

  loop_queue :
      (l m n : ℕ) (x : Loop k) (w : State k)
      → AllBelow n x.taskqueue
      → AllBelow n (w.loops m).taskqueue
      → AllBelow n ((put_loop l x w).loops m).taskqueue
  loop_queue l m n x w h h' = elim (ℕ_discrete l m) [
    | yes same ↦ rw (← same, at) h
    | no ne ↦ rw (elsewhere ne) h'
  ]
    where
      at : (put_loop l x w).loops l ≡ x
      at = ground arith

      elsewhere : l ≢ m → (put_loop l x w).loops m ≡ w.loops m
      elsewhere ne = ground arith

  -- A change of a loop that keeps its connections and what its epoll watches.
  pub loop-Goes :
      (l : ℕ) (x : Loop k) (w : State k)
      → Inv k laws w
      → x.conns ≡ (w.loops l).conns
      → ((j : ℕ) → watched x.kernel j ≡ watched (w.loops l).kernel j)
      → AllBelow w.outer.next x.taskqueue
      → Goes w (put_loop l x w)
  loop-Goes l x w inv e keeps below = record {
    inv = record {
      threads = inv.threads;
      sound = λ q lt.
          let s = inv.sound q lt in
          let fd = (w.objs q).channel.fd in
          let same = loop_watched l (w.objs q).loop fd x w (keeps fd) in
          record {
            at_loop = s.at_loop;
            kept = rw (loop_conns l (w.objs q).loop x w e) s.kept;
            unframed = s.unframed;
            open_ = λ h. (
              record { flagged = (s.open_ h).0.flagged; listed = same ∙ (s.open_ h).0.listed },
              (s.open_ h).1,
            );
            shut =
                λ h. record { flagged = (s.shut h).flagged; unlisted = same ∙ (s.shut h).unlisted };
          };
      map = inv.map;
      queues = λ m le. loop_queue l m w.outer.next x w below (inv.queues m le);
      works = inv.works;
    };
    same_next = refl;
    same_threadnum = refl;
    same_workers = refl;
    same_loop = λ q. refl;
    same_end = λ q. refl;
  }

  -- A change of the tasks of the workers.
  pub user-Goes :
      (user : Echo) (w : State k)
      → Inv k laws w
      → WorksBelow w.outer.next user.tasks
      → user.workers ≡ w.outer.user.workers
      → Goes w (record w { outer = record w.outer { user = user } })
  user-Goes user w inv below crew = record {
    inv = record {
      threads = inv.threads;
      sound = λ q lt.
          let s = inv.sound q lt in
          record {
            at_loop = s.at_loop;
            kept = s.kept;
            unframed = s.unframed;
            open_ = s.open_;
            shut = s.shut;
          };
      map = inv.map;
      queues = inv.queues;
      works = below;
    };
    same_next = refl;
    same_threadnum = refl;
    same_workers = crew;
    same_loop = λ q. refl;
    same_end = λ q. refl;
  }
