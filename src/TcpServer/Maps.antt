-- ===== src/TcpServer/Maps.antt =====
-- The two maps that hold a connection: `conns_` of the server and `conns_` of its sub loop.
use reactor_server.Base.{
  ℕ, ◌+◌, ◌%◌, ◌<◌, ◌≡◌, refl, none, some, List, ◌==◌, if◌then◌else◌, ok, arith, find, erase,
  find-erase,
}
use reactor_server.Epoll.Kernel.{Kernel}
use reactor_server.TcpServer.Defs.{
  Tcp, UserCallbacks, if_set, removeconn, closeconnection, errorconnection,
}
use reactor_server.World.{World}

pub find-erase-some :
    (g fd : ℕ) (m : List (ℕ × ℕ)) {p : ℕ} → find g (erase fd m) ≡ some p → find g m ≡ some p
find-erase-some g fd m e = ground (arith, find-erase g fd m)

module _ {k : Kernel} {U : Type 0} where
  -- The sub loop that serves a descriptor.
  abbrev pub loop_of : ℕ → World k (Tcp U) → ℕ
  loop_of fd w = 1 + fd % w.outer.threadnum

  -- What the server's map says of a descriptor is so: its object has the descriptor and the sub loop
  -- that serves it, and stands in that loop's map as well.
  pub record Holds (fd p : ℕ) (w : World k (Tcp U)) : Type 0 where
    pub has_fd : (w.objs p).channel.fd ≡ fd
    pub has_loop : (w.objs p).loop ≡ loop_of fd w
    pub in_loop : find fd (w.loops (loop_of fd w)).conns ≡ some p
    pub allocated : p < w.outer.next

  pub record Consistent (w : World k (Tcp U)) : Type 0 where
    pub holds : (fd p : ℕ) → find fd w.outer.conns ≡ some p → Holds fd p w

  -- Dropping a descriptor from the server's map keeps the rest of the map, the map of the loop, and
  -- their agreement.
  pub removeconn-Consistent :
      (fd : ℕ) (w : World k (Tcp U))
      → Consistent w
      → (w' : World k (Tcp U)) × (removeconn fd w ≡ ok w')
        × Consistent w'
        × ((g : ℕ) → find g w'.outer.conns ≡ (if fd == g then none else find g w.outer.conns))
        × (w'.loops ≡ w.loops)
  unfolding removeconn
  removeconn-Consistent fd w c = (
    record w { outer = record w.outer { conns = erase fd w.outer.conns } },
    refl,
    record {
      holds = λ g p e.
          let h = c.holds g p (find-erase-some g fd w.outer.conns e) in
          record {
            has_fd = h.has_fd;
            has_loop = h.has_loop;
            in_loop = h.in_loop;
            allocated = h.allocated;
          };
    },
    λ g. find-erase g fd w.outer.conns,
    refl,
  )

  -- The end of a connection that the server knows, by its peer or by an error, with a user's callback
  -- that changes nothing: the server forgets the connection and no other, and the maps still agree.
  -- The sub loop goes on holding the connection.
  pub close-keeps_in_loop :
      (u : UserCallbacks k U) (fd p : ℕ) (w : World k (Tcp U))
      → ((v : World k (Tcp U)) → if_set u.closeconnectioncb p v ≡ ok v)
      → ((v : World k (Tcp U)) → if_set u.errorconnectioncb p v ≡ ok v)
      → Consistent w
      → find fd w.outer.conns ≡ some p
      → (w' : World k (Tcp U)) × (closeconnection u p w ≡ ok w')
        × (errorconnection u p w ≡ ok w')
        × Consistent w'
        × ((g : ℕ) → find g w'.outer.conns ≡ (if fd == g then none else find g w.outer.conns))
        × (find fd (w'.loops (loop_of fd w)).conns ≡ some p)
  unfolding closeconnection errorconnection
  close-keeps_in_loop u fd p w quiet quiet' c e =
      let h = c.holds fd p e in
      let (w', done, c', erased, same) = removeconn-Consistent fd w c in
      (w', rw (quiet w, h.has_fd) done, rw (quiet' w, h.has_fd) done, c', erased, rw same h.in_loop)
