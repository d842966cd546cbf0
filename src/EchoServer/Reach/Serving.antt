-- ===== src/EchoServer/Reach/Serving.antt =====
-- An open connection of a server of many: from the bytes that its client sends to its reply.
use reactor_server.Base.{
  true, ℕ, suc, ◌≤◌, ◌<◌, ◌≡◌, refl, sym, ◌∙◌, false, some, List, [], ◌∷◌, ◌++◌, length, drop-all,
  ok,
}
use reactor_server.Connection.Defs.{Read}
use reactor_server.Connection.Input.{GoesOn, bytes_of, fed, onmessage-fed}
use reactor_server.Connection.Live.{IsLive}
use reactor_server.Connection.Output.{writecallback-all}
use reactor_server.Connection.Text.{NulFree}
use reactor_server.EchoServer.Defs.{Echo, State, work_prefix, callbacks, work, handle_quietly}
use reactor_server.EchoServer.Reach.Events.{
  IsOpen, IsOpen-Goes, IsOpen-IsLive, own-Goes, drain-Goes,
}
use reactor_server.EchoServer.Reach.Moves.{Goes, then-Goes, loop-Goes}
use reactor_server.EchoServer.Reach.Rounds.{noted-Goes}
use reactor_server.EchoServer.Reach.Sends.{handlewakeup-Goes, work-Goes}
use reactor_server.EchoServer.Reach.Sound.{Inv, loop_in_range}
use reactor_server.EchoServer.Reach.Steps.{runs, IsReported, Reach, rounds, works}
use reactor_server.EchoServer.Way.{coming, echo-answers}
use reactor_server.Epoll.Defs.{returned}
use reactor_server.Epoll.Kernel.{Kernel, Laws}
use reactor_server.EventLoop.Defs.{isinloopthread}
use reactor_server.EventLoop.Dispatch.{
  taking, waking, writing, arriving, round-writecallback, handlewakeup-round, onmessage-round,
}
use reactor_server.EventLoop.Run.{wake, client, round}
use reactor_server.Channel.State.{setrevents}
use reactor_server.TcpServer.Create.{timercallback}
use reactor_server.TcpServer.Defs.{Tcp, handlers, epolltimeout, sendcomplete}
use reactor_server.World.{Conn, Call, put_conn-at}

module _ (k : Kernel) (laws : Laws k) where
  -- A round that brings bytes leaves all connections as they were, open or closed.
  arrival-Goes :
      (io fuel l p : ℕ) (cb idle : Call k (Tcp Echo)) (clock : ℕ → ℕ) (reads rest : List Read)
      (w w' : State k)
      → Inv k laws w
      → IsOpen k laws p w
      → GoesOn reads
      → round
          (handlers (callbacks io))
          cb
          idle
          (coming fuel clock reads rest)
          l
          (returned ((client p, 1) ∷ []))
          w
        ≡ ok w'
      → Goes k laws w w'
  unfolding setrevents
  arrival-Goes io fuel l p cb idle clock reads rest w w' inv o goes e =
      let h = handlers (callbacks io) in
      let v = arriving p w in
      let x = fed p (bytes_of reads) v in
      let g = noted-Goes k laws p 1 w inv o in
      let ov = IsOpen-Goes k laws p w v o g in
      let g' = own-Goes k laws p _ v g.inv ov refl refl refl refl in
      let received = onmessage-round h cb idle (coming fuel clock reads rest) l p w w' e in
      then-Goes k laws g (
        then-Goes k laws g' (
          drain-Goes k laws io (suc (suc fuel)) clock 0 p [] x w' g'.inv
            (IsOpen-Goes k laws p v x ov g')
            (sym (onmessage-fed h (suc (suc fuel)) clock reads rest p v goes) ∙ received)))

  wakeup-Goes :
      (io l : ℕ) (cb idle : Call k (Tcp Echo)) (w w' : State k)
      → Inv k laws w
      → l ≤ w.outer.threadnum
      → round (handlers (callbacks io)) cb idle (taking 0) l (returned ((wake, 1) ∷ [])) w ≡ ok w'
      → Goes k laws w w'
  wakeup-Goes io l cb idle w w' inv le e =
      let g = loop-Goes k laws l _ w inv refl (λ j. refl) (inv.queues l le) in
      then-Goes k laws g (
        handlewakeup-Goes k laws l (waking l w) w' g.inv le
          (handlewakeup-round (handlers (callbacks io)) cb idle 0 l w w' e))

  IsOpen-IsReported :
      (l p : ℕ) (w : State k)
      → Inv k laws w
      → IsOpen k laws p w
      → (w.objs p).loop ≡ l
      → IsReported k laws l p w
  IsOpen-IsReported l p w inv o e = record {
    made = o.made;
    at_loop = e;
    interest = (w.objs p).channel.events;
    listed = rw (← e) (IsOpen-IsLive k laws p w inv o).listed;
  }

  -- A writable socket that takes all that a connection has to send.
  emptied :
      (io l p n : ℕ) (cb idle : Call k (Tcp Echo)) (w : State k)
      → IsLive k laws p w
      → length (w.objs p).outputbuffer.buf ≤ n
      → (w' : State k) × (round
            (handlers (callbacks io))
            cb
            idle
            (taking n)
            l
            (returned ((client p, 4) ∷ []))
            w
          ≡ ok w')
        × ((w'.objs p).outputbuffer.buf ≡ [])
        × ((w'.objs p).disconnect ≡ (w.objs p).disconnect)
        × IsLive k laws p w'
  unfolding handlers sendcomplete callbacks handle_quietly
  emptied io l p n cb idle w live le =
      let h = handlers (callbacks io) in
      let v = writing p w in
      let c : Conn = record (w.objs p) { channel = record (w.objs p).channel { revents = 4 } } in
      let e = put_conn-at p c w in
      let (w', done, t, live') =
        writecallback-all k laws h p n v
          (rw e (record { flagged = live.flagged; listed = live.listed })) (rw e le) in
      (
        w',
        round-writecallback h cb idle n l p w w' done,
        rw (t.now) (rw e (drop-all n (w.objs p).outputbuffer.buf le)),
        rw (t.now) (rw e refl),
        live',
      )

  -- From the bytes of an open connection that has nothing to send, to its reply.
  pub served :
      (io thread l p fuel takes : ℕ) (clock : ℕ → ℕ) (reads rest : List Read) (w : State k)
      → Inv k laws w
      → IsOpen k laws p w
      → (w.objs p).loop ≡ l
      → (w.objs p).inputbuffer ≡ record { buf = []; sep = 0 }
      → (w.objs p).outputbuffer.buf ≡ []
      → (w.loops l).taskqueue ≡ []
      → isinloopthread thread (w.loops l) ≡ false
      → w.outer.user.tasks ≡ []
      → 0 < w.outer.user.workers
      → GoesOn reads
      → 0 < length (bytes_of reads)
      → NulFree (bytes_of reads)
      → length (work_prefix ++ bytes_of reads) ≤ takes
      → (w₁ w₂ w₃ w₄ : State k) × (runs k laws io l
            (coming fuel clock reads rest)
            (returned ((client p, 1) ∷ []))
            w
          ≡ ok w₁)
        × (work 0 thread w₁ ≡ ok w₂)
        × (laws.pending (w₂.loops l).kernel ≡ true)
        × (runs k laws io l (taking 0) (returned ((wake, 1) ∷ [])) w₂ ≡ ok w₃)
        × ((w₃.objs p).outputbuffer.buf ≡ work_prefix ++ bytes_of reads)
        × (runs k laws io l (taking takes) (returned ((client p, 4) ∷ [])) w₃ ≡ ok w₄)
        × ((w₄.objs p).outputbuffer.buf ≡ [])
        × ((w₄.objs p).disconnect ≡ false)
        × IsLive k laws p w₄
        × ((v : State k) → Reach k laws v w → Reach k laws v w₄)
  served io thread l p fuel takes clock reads rest w inv o el ready empty idle other none_ some_
        goes pos text all =
      let cb = timercallback l in
      let tick = some (epolltimeout (callbacks io)) in
      let (w₁, w₂, w₃, received, worked, signalled, woken, out, live) =
        echo-answers k laws cb tick fuel io thread p clock reads rest w
          (IsOpen-IsLive k laws p w inv o) o.is_open ready (rw el idle) (rw el other) none_ some_
          goes pos text in
      let received' : runs k laws io l (coming fuel clock reads rest)
            (returned ((client p, 1) ∷ [])) w
          ≡ ok w₁ =
        rw el at received in
      let woken' : runs k laws io l (taking 0) (returned ((wake, 1) ∷ [])) w₂ ≡ ok w₃ =
        rw el at woken in
      let le : l ≤ w.outer.threadnum =
        rw (← el) (loop_in_range k laws p w inv.threads (inv.sound p o.made)) in
      let g₁ = arrival-Goes io fuel l p cb tick clock reads rest w w₁ inv o goes received' in
      let g₂ = then-Goes k laws g₁ (work-Goes k laws 0 thread w₁ w₂ g₁.inv worked) in
      let le₂ : l ≤ w₂.outer.threadnum = rw (g₂.same_threadnum) le in
      let g₃ = then-Goes k laws g₂ (wakeup-Goes io l cb tick w₂ w₃ g₂.inv le₂ woken') in
      let o₃ = IsOpen-Goes k laws p w w₃ o g₃ in
      let le₃ : l ≤ w₃.outer.threadnum = rw (g₃.same_threadnum) le in
      let out' : (w₃.objs p).outputbuffer.buf ≡ work_prefix ++ bytes_of reads = rw empty at out in
      let (w₄, sent, left, same, live₄) = emptied io l p takes cb tick w₃ live (rw out' all) in
      (
        w₁,
        w₂,
        w₃,
        w₄,
        received',
        worked,
        rw el at signalled,
        woken',
        out',
        sent,
        left,
        same ∙ o₃.is_open,
        live₄,
        λ v r.
            let r₁ = Reach.step r (
              rounds io l (coming fuel clock reads rest) ((client p, 1) ∷ []) w₁ le
                (IsOpen-IsReported l p w inv o el, tt, tt) received') in
            let r₂ = Reach.step r₁ (works 0 thread w₂ (rw (g₁.same_workers) some_) worked) in
            let r₃ = Reach.step r₂ (rounds io l (taking 0) ((wake, 1) ∷ []) w₃ le₂ tt woken') in
            Reach.step r₃ (
              rounds io l (taking takes) ((client p, 4) ∷ []) w₄ le₃
                (IsOpen-IsReported l p w₃ g₃.inv o₃ (g₃.same_loop p ∙ el), tt, tt) sent),
      )
