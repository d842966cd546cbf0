-- ===== src/TcpServer/Stop.antt =====
-- `TcpServer::stop` and `EventLoop::run`: what is asked of the loops, and what they do then.
use reactor_server.Base.{
  ℕ, zero, suc, ◌≤◌, ◌<◌, ◌≡◌, ◌≢◌, ◌⊎◌, inl, inr, refl, ◌∙◌, true, List, [], ◌∷◌, ok, arith,
  ℕ_discrete,
}
use reactor_server.Connection.Defs.{Handlers, Answers}
use reactor_server.Epoll.Defs.{Wait}
use reactor_server.Epoll.Kernel.{Kernel, Laws}
use reactor_server.EventLoop.Defs.{stop, wakeup}
use reactor_server.EventLoop.Run.{Source, rounds}
use reactor_server.TcpServer.Defs.{Tcp, stop_subloops, stop_loops}
use reactor_server.World.{Loop, World, Call, put_loop, put_loop-at}

later : (n m : ℕ) → (m ≡ 0) ⊎ (n < m) → 0 < n → n ≢ m
later n m (inl e) pos h = omega (arith, h)
later n m (inr lt) pos h = omega (arith, h)

earlier : (n m : ℕ) → (m ≡ 0) ⊎ (suc n < m) → (m ≡ 0) ⊎ (n < m)
earlier n m (inl e) = inl e
earlier n m (inr lt) = inr (omega arith)

module _ {k : Kernel} (laws : Laws k) where
  open laws use {watched, pending}

  -- A loop that was told to stop, and whose eventfd will wake it.
  pub record IsStopped (x : Loop k) : Type 0 where
    pub told : x.stop ≡ true
    pub wakes : pending x.kernel ≡ true

  stop-IsStopped : (x : Loop k) → IsStopped (stop x)
  unfolding stop wakeup
  stop-IsStopped x = record { told = refl; wakes = laws.write_pending x.kernel }

module _ {k : Kernel} (laws : Laws k) {U : Type 0} where
  put_loop_else :
      (l m : ℕ) (x : Loop k) (w : World k (Tcp U)) → l ≢ m → (put_loop l x w).loops m ≡ w.loops m
  put_loop_else l m x w ne = ground arith

  put_loop-IsStopped :
      (l m : ℕ) (w : World k (Tcp U))
      → (l ≢ m → IsStopped laws (w.loops m))
      → IsStopped laws ((put_loop l (stop (w.loops l)) w).loops m)
  put_loop-IsStopped l m w h = elim (ℕ_discrete l m) [
    | yes e ↦ rw (← e, put_loop-at l (stop (w.loops l)) w) (stop-IsStopped laws (w.loops l))
    | no ne ↦ rw (put_loop_else l m (stop (w.loops l)) w ne) (h ne)
  ]

  stop_subloops-IsStopped :
      (n m : ℕ) (w : World k (Tcp U)) → 0 < m → m ≤ n → IsStopped laws ((stop_subloops n w).loops m)
  unfolding stop_subloops
  stop_subloops-IsStopped zero m w h le = absurd (omega arith)
  stop_subloops-IsStopped (suc n) m w h le =
      put_loop-IsStopped (suc n) m (stop_subloops n w)
        (λ ne. stop_subloops-IsStopped n m w h (omega arith))

  stop_subloops-kept :
      (n m : ℕ) (w : World k (Tcp U)) → (m ≡ 0) ⊎ (n < m) → (stop_subloops n w).loops m ≡ w.loops m
  unfolding stop_subloops
  stop_subloops-kept zero m w h = refl
  stop_subloops-kept (suc n) m w h =
      put_loop_else (suc n) m (stop ((stop_subloops n w).loops (suc n))) (stop_subloops n w)
        (later (suc n) m h (omega arith))
      ∙ stop_subloops-kept n m w (earlier n m h)

  rounds-stopped :
      (h : Handlers k (Tcp U)) (cb idle : Call k (Tcp U)) (l : ℕ)
      (script : List ((Source → Answers) × Wait Source)) (w : World k (Tcp U))
      → (w.loops l).stop ≡ true
      → rounds h cb idle l script w ≡ ok w
  unfolding rounds
  rounds-stopped h cb idle l [] w e = rw e refl
  rounds-stopped h cb idle l (a ∷ script) w e = rw e refl

  stop_loops-each :
      (w : World k (Tcp U)) (m : ℕ)
      → m ≤ w.outer.threadnum
      → IsStopped laws ((stop_loops w).loops m)
  unfolding stop_loops
  stop_loops-each w zero le =
      rw
        (
          stop_subloops-kept w.outer.threadnum 0 (put_loop 0 (stop (w.loops 0)) w) (inl refl),
          put_loop-at 0 (stop (w.loops 0)) w,
        )
        (stop-IsStopped laws (w.loops 0))
  stop_loops-each w (suc m) le =
      stop_subloops-IsStopped w.outer.threadnum (suc m) (put_loop 0 (stop (w.loops 0)) w)
        (omega arith) le

  -- `stop` sets the flag of the main loop and of every sub loop and makes the eventfd of each
  -- readable; and each of them, at the test of its flag, leaves `run` at once, whatever events
  -- there may still be.
  pub stop_loops-IsStopped :
      (w : World k (Tcp U)) (m : ℕ)
      → m ≤ w.outer.threadnum
      → IsStopped laws ((stop_loops w).loops m)
        × ((h : Handlers k (Tcp U)) (cb idle : Call k (Tcp U))
              (script : List ((Source → Answers) × Wait Source))
            → rounds h cb idle m script (stop_loops w) ≡ ok (stop_loops w))
  stop_loops-IsStopped w m le =
      let stopped = stop_loops-each w m le in
      (stopped, λ h cb idle script. rounds-stopped h cb idle m script (stop_loops w) stopped.told)
