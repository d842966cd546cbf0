-- ===== src/EchoServer/Reach/Ends.antt =====
-- The end of one connection in a server of many.
use mathlib.Core.Bool.{true≢false}
use reactor_server.Base.{
  ℕ, ◌≤◌, ◌<◌, ◌≡◌, ◌≢◌, refl, sym, ap, subst, ◌∙◌, true, some, List, arith, ℕ_discrete, find,
  erase, find-erase,
}
use reactor_server.Connection.Close.{IsGone, closed_conn}
use reactor_server.Connection.Live.{Touched, Touched-same}
use reactor_server.EchoServer.Defs.{Echo, State}
use reactor_server.EchoServer.Reach.Sound.{Inv, distinct, conns_same, Sound-Touched}
use reactor_server.Epoll.Kernel.{Kernel, Laws}
use reactor_server.TcpServer.Defs.{Tcp}
use reactor_server.TcpServer.Maps.{find-erase-some}
use reactor_server.EchoServer.Reach.Moves.{Goes, queue_same}

find-erase_other : (j k : ℕ) (m : List (ℕ × ℕ)) → k ≢ j → find j (erase k m) ≡ find j m
find-erase_other j k m ne = ground (arith, find-erase j k m)

found_other : (j k : ℕ) (m : List (ℕ × ℕ)) {p : ℕ} → find j (erase k m) ≡ some p → k ≢ j
found_other j k m e = ground (arith, find-erase j k m)

module _ (k : Kernel) (laws : Laws k) where
  -- What makes no connection, and closes none but the one at `p`.
  pub record Handled (p : ℕ) (w w' : State k) : Type 0 where
    pub inv : Inv k laws w'
    pub same_next : w'.outer.next ≡ w.outer.next
    pub same_threadnum : w'.outer.threadnum ≡ w.outer.threadnum
    pub same_workers : w'.outer.user.workers ≡ w.outer.user.workers
    pub others_end : (q : ℕ) → q ≢ p → (w'.objs q).disconnect ≡ (w.objs q).disconnect

  pub Goes-Handled : (p : ℕ) (w w' : State k) → Goes k laws w w' → Handled p w w'
  Goes-Handled p w w' g = record {
    inv = g.inv;
    same_next = g.same_next;
    same_threadnum = g.same_threadnum;
    same_workers = g.same_workers;
    others_end = λ q ne. g.same_end q;
  }

  pub then-Handled :
      {p : ℕ} {w w' w'' : State k} → Goes k laws w w' → Handled p w' w'' → Handled p w w''
  then-Handled g h = record {
    inv = h.inv;
    same_next = h.same_next ∙ g.same_next;
    same_threadnum = h.same_threadnum ∙ g.same_threadnum;
    same_workers = h.same_workers ∙ g.same_workers;
    others_end = λ q ne. h.others_end q ne ∙ g.same_end q;
  }

  -- The end of an open connection.
  close-Inv :
      (p : ℕ) (w w' : State k)
      → Inv k laws w
      → p < w.outer.next
      → Touched k laws p (closed_conn (w.objs p)) w w'
      → IsGone k laws p w'
      → Inv k laws (record w' {
        outer = record w'.outer { conns = erase (w'.objs p).channel.fd w'.outer.conns };
      })
  close-Inv p w w' inv below t gone =
      let sp = inv.sound p below in
      let same = Touched-same k laws t in
      let ended : (w'.objs p).disconnect ≡ true = rw (t.now) refl in
      let old_next : (q : ℕ) → q < w'.outer.next → q < w.outer.next =
        λ q lt. subst (λ (o : Tcp Echo). q < o.next) t.outer_kept lt in
      record {
        threads = rw (t.outer_kept) inv.threads;
        sound = λ q lt. elim (ℕ_discrete q p) [
          | yes eq ↦ rw eq (record {
            at_loop = rw ((same p).0, (same p).1, t.outer_kept) sp.at_loop;
            kept =
                rw ((same p).0, (same p).1, conns_same k laws p (w.objs p).loop _ w w' t) sp.kept;
            unframed = rw (t.now) sp.unframed;
            open_ = λ h. absurd (true≢false (sym ended ∙ h));
            shut = λ h. gone;
          })
          | no ne ↦
              let sq = inv.sound q (old_next q lt) in
              let nf = distinct k laws p q w sp sq ne in
              let s = Sound-Touched k laws p q _ w w' t ne nf sq in
              record {
                at_loop = s.at_loop;
                kept = s.kept;
                unframed = s.unframed;
                open_ = λ h. (
                  (s.open_ h).0,
                  find-erase_other (w'.objs q).channel.fd (w'.objs p).channel.fd w'.outer.conns
                        (λ e. nf (sym (same q).1 ∙ sym e ∙ (same p).1))
                      ∙ (s.open_ h).1,
                );
                shut = s.shut;
              }
        ];
        map = λ fd q found.
            let there : find fd w.outer.conns ≡ some q =
              rw (← t.outer_kept)
                (find-erase-some fd (w'.objs p).channel.fd w'.outer.conns found) in
            let old = inv.map fd q there in
            let ne : q ≢ p = λ eq.
              found_other fd (w'.objs p).channel.fd w'.outer.conns found
                (sym (ap (λ r. (w'.objs r).channel.fd) eq) ∙ (same q).1 ∙ old.1) in
            (rw (t.outer_kept) (old.0), (same q).1 ∙ old.1, rw (t.elsewhere q ne) (old.2));
        queues = λ m le.
            rw (t.outer_kept, queue_same k laws p m _ w w' t)
              (inv.queues m (subst (λ (o : Tcp Echo). m ≤ o.threadnum) t.outer_kept le));
        works = rw (t.outer_kept) inv.works;
      }

  pub close-Handled :
      (p : ℕ) (w w' : State k)
      → Inv k laws w
      → p < w.outer.next
      → Touched k laws p (closed_conn (w.objs p)) w w'
      → IsGone k laws p w'
      → Handled p w (record w' {
        outer = record w'.outer { conns = erase (w'.objs p).channel.fd w'.outer.conns };
      })
  close-Handled p w w' inv below t gone = record {
    inv = close-Inv p w w' inv below t gone;
    same_next = ap (λ (o : Tcp Echo). o.next) t.outer_kept;
    same_threadnum = ap (λ (o : Tcp Echo). o.threadnum) t.outer_kept;
    same_workers = ap (λ (o : Tcp Echo). o.user.workers) t.outer_kept;
    others_end = λ q ne. rw (t.elsewhere q ne);
  }
