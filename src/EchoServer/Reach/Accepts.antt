-- ===== src/EchoServer/Reach/Accepts.antt =====
-- A new client of a server of many, and the timer of a loop.
use reactor_server.Base.{
  ℕ, suc, ◌<◌, ◌≡◌, ◌≢◌, refl, sym, subst, ◌∙◌, true, false, inl, inr, some, List, [], ◌∷◌, ok,
  same_ok, not_ok, arith, ℕ_discrete, find,
}
use reactor_server.Channel.Sync.{IsWatched}
use reactor_server.EchoServer.Defs.{State, callbacks, handle_quietly}
use reactor_server.EchoServer.Reach.Sound.{AllBelow, WorksBelow, Sound, Inv}
use reactor_server.Epoll.Kernel.{Kernel, Laws}
use reactor_server.EventLoop.Defs.{newconnection as keep_connection}
use reactor_server.TcpServer.Accept.{
  client_socket, new_channel, new_conn, joined, create_conn-cases, newconnection-eq,
  newconnection-exits, kernel_at, new_at, old_at, conns_at, conns_kept, find-insert_same,
  insert-found, find-insert_other,
}
use reactor_server.TcpServer.Defs.{newconnection}
use reactor_server.TcpServer.Maps.{loop_of}
use reactor_server.World.{Task, Conn}

AllBelow-suc : (n : ℕ) (q : List Task) → AllBelow n q → AllBelow (suc n) q
AllBelow-suc n [] h = tt
AllBelow-suc n (fn ∷ q) h = (omega (arith, h.0), AllBelow-suc n q h.1)

WorksBelow-suc : (n : ℕ) (q : List (ℕ × List ℕ)) → WorksBelow n q → WorksBelow (suc n) q
WorksBelow-suc n [] h = tt
WorksBelow-suc n ((p, m) ∷ q) h = (omega (arith, h.0), WorksBelow-suc n q h.1)

before : (q n : ℕ) → q < suc n → q ≢ n → q < n
before q n lt ne = omega (arith, ne)

module _ (k : Kernel) (laws : Laws k) where
  open laws use {watched}

  -- No map of a loop holds a connection with the descriptor: a socket stays open as long as one does,
  -- and `accept4` gives a descriptor that is not open.
  abbrev pub IsFree : ℕ → State k → Type 0
  IsFree fd w = (g m p : ℕ) → find g (w.loops m).conns ≡ some p → (w.objs p).channel.fd ≢ fd

  joined-queue :
      (fd m : ℕ) (c : Conn) (s : k.State) (w : State k)
      → ((joined fd c s w).loops m).taskqueue ≡ (w.loops m).taskqueue
  unfolding keep_connection
  joined-queue fd m c s w = elim (ℕ_discrete c.loop m) [
    | yes same ↦ rw (← same) (ground arith)
    | no ne ↦ ground arith
  ]

  -- The kernel's view of the others.
  joined-watched :
      (fd m j : ℕ) (c : Conn) (s : k.State) (w : State k)
      → watched s j ≡ watched (w.loops c.loop).kernel j
      → watched ((joined fd c s w).loops m).kernel j ≡ watched (w.loops m).kernel j
  unfolding keep_connection
  joined-watched fd m j c s w e = elim (ℕ_discrete c.loop m) [
    | yes same ↦ rw (← same, kernel_at fd c s w) e
    | no ne ↦ ground arith
  ]

  new-Sound :
      (fd : ℕ) (ip : List ℕ) (port now : ℕ) (s : k.State) (w : State k)
      → IsWatched k laws (new_channel fd) s
      → Sound k laws w.outer.next (joined fd (new_conn (loop_of fd w) fd ip port now) s w)
  new-Sound fd ip port now s w live =
      let n = new_conn (loop_of fd w) fd ip port now in
      record {
        at_loop = rw (new_at fd ip port now s w) refl;
        kept =
            rw (new_at fd ip port now s w, conns_at fd n s w)
              (find-insert_same fd w.outer.next (w.loops (loop_of fd w)).conns);
        unframed = rw (new_at fd ip port now s w) refl;
        open_ = λ h. (
          rw (new_at fd ip port now s w, kernel_at fd n s w) live,
          rw (new_at fd ip port now s w) (find-insert_same fd w.outer.next w.outer.conns),
        );
        shut = rw (new_at fd ip port now s w) (λ h. absurd (never h));
      }
    where
      never : false ≡ true → ⊥
      never h = ground (arith, h)

  old-Sound :
      (fd q : ℕ) (c : Conn) (s : k.State) (w : State k)
      → ((j : ℕ) → j ≢ fd → watched s j ≡ watched (w.loops c.loop).kernel j)
      → q < w.outer.next
      → (w.objs q).channel.fd ≢ fd
      → Sound k laws q w
      → Sound k laws q (joined fd c s w)
  old-Sound fd q c s w others lt ne sq =
      let j = (w.objs q).channel.fd in
      let same = joined-watched fd (w.objs q).loop j c s w (others j ne) in
      record {
        at_loop = rw (old_at c fd s w q lt) sq.at_loop;
        kept =
            rw (old_at c fd s w q lt)
              (conns_kept fd c s w j (w.objs q).loop q (λ e. ne (sym e)) sq.kept);
        unframed = rw (old_at c fd s w q lt) sq.unframed;
        open_ = rw (old_at c fd s w q lt) (λ h. (
          record { flagged = (sq.open_ h).0.flagged; listed = same ∙ (sq.open_ h).0.listed },
          find-insert_other j fd w.outer.next w.outer.conns (λ e. ne (sym e)) ∙ (sq.open_ h).1,
        ));
        shut =
            rw (old_at c fd s w q lt) (λ h. record {
              flagged = (sq.shut h).flagged;
              unlisted = same ∙ (sq.shut h).unlisted;
            });
      }

  joined-Inv :
      (fd : ℕ) (ip : List ℕ) (port now : ℕ) (s : k.State) (w : State k)
      → Inv k laws w
      → IsFree fd w
      → IsWatched k laws (new_channel fd) s
      → ((j : ℕ) → j ≢ fd → watched s j ≡ watched (w.loops (loop_of fd w)).kernel j)
      → Inv k laws (joined fd (new_conn (loop_of fd w) fd ip port now) s w)
  joined-Inv fd ip port now s w inv free live others =
      let n = new_conn (loop_of fd w) fd ip port now in
      let new = w.outer.next in
      record {
        threads = inv.threads;
        sound = λ q lt. elim (ℕ_discrete q new) [
          | yes e ↦ rw e (new-Sound fd ip port now s w live)
          | no ne ↦
              let below = before q new lt ne in
              let sq = inv.sound q below in
              old-Sound fd q n s w others below
                (free (w.objs q).channel.fd (w.objs q).loop q sq.kept) sq
        ];
        map = λ g q found. elim (ℕ_discrete fd g) [
          | yes e ↦
              let is_new : new ≡ q = insert-found g fd new w.outer.conns e found in
              rw (← is_new, new_at fd ip port now s w) (omega arith, e, refl)
          | no ne ↦
              let old = inv.map g q (sym (find-insert_other g fd new w.outer.conns ne) ∙ found) in
              rw (old_at n fd s w q old.0) (omega (arith, old.0), old.1, old.2)
        ];
        queues = λ m le.
            rw (joined-queue fd m n s w) (AllBelow-suc new (w.loops m).taskqueue (inv.queues m le));
        works = WorksBelow-suc new w.outer.user.tasks inv.works;
      }

  pub newconnection-Inv :
      (io fd : ℕ) (ip : List ℕ) (port now : ℕ) (w w' : State k)
      → Inv k laws w
      → IsFree fd w
      → newconnection (callbacks io) (client_socket fd ip port) now w ≡ ok w'
      → Inv k laws w'
  unfolding callbacks handle_quietly
  newconnection-Inv io fd ip port now w w' inv free e =
      let l = loop_of fd w in
      elim (create_conn-cases k laws l fd ip port now (w.loops l).kernel) [
        | inl no_room ↦
            absurd
              (not_ok (newconnection-exits (callbacks io) fd ip port now w inv.threads no_room) e)
        | inr (s, made, live, others) ↦
            subst (Inv k laws)
              (same_ok (newconnection-eq (callbacks io) fd ip port now w s inv.threads made) e)
              (joined-Inv fd ip port now s w inv free live others)
      ]

  -- The object that an accepted client gets.
  pub newconnection-at :
      (io fd : ℕ) (ip : List ℕ) (port now : ℕ) (w w' : State k)
      → Inv k laws w
      → newconnection (callbacks io) (client_socket fd ip port) now w ≡ ok w'
      → (w'.objs w.outer.next ≡ new_conn (loop_of fd w) fd ip port now)
        × (w'.outer.next ≡ suc w.outer.next)
        × (w'.outer.user.workers ≡ w.outer.user.workers)
  unfolding callbacks handle_quietly
  newconnection-at io fd ip port now w w' inv e =
      let l = loop_of fd w in
      elim (create_conn-cases k laws l fd ip port now (w.loops l).kernel) [
        | inl no_room ↦
            absurd
              (not_ok (newconnection-exits (callbacks io) fd ip port now w inv.threads no_room) e)
        | inr (s, made, live, others) ↦
            subst
              (λ (v : State k).
                (v.objs w.outer.next ≡ new_conn l fd ip port now)
                × (v.outer.next ≡ suc w.outer.next)
                × (v.outer.user.workers ≡ w.outer.user.workers))
              (same_ok (newconnection-eq (callbacks io) fd ip port now w s inv.threads made) e)
              (new_at fd ip port now s w, refl, refl)
      ]
