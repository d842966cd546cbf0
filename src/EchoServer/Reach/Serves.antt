-- ===== src/EchoServer/Reach/Serves.antt =====
-- A new client of a server of many: from `accept4` to its reply.
use reactor_server.Base.{true, ℕ, ◌≤◌, ◌<◌, ◌≡◌, ap, false, List, [], ◌∷◌, ◌++◌, length, ok, arith}
use reactor_server.Connection.Defs.{Read}
use reactor_server.Connection.Input.{GoesOn, bytes_of}
use reactor_server.Connection.Live.{IsLive}
use reactor_server.Connection.Text.{NulFree}
use reactor_server.EchoServer.Defs.{Echo, State, work_prefix, callbacks, work}
use reactor_server.EchoServer.Reach.Accepts.{IsFree, newconnection-Inv, newconnection-at}
use reactor_server.EchoServer.Reach.Events.{IsOpen}
use reactor_server.EchoServer.Reach.Serving.{served}
use reactor_server.EchoServer.Reach.Steps.{runs, Reach, accepts, new_echo, Reach-Inv, Reach-workers}
use reactor_server.EchoServer.Way.{coming}
use reactor_server.Epoll.Defs.{returned}
use reactor_server.Epoll.Kernel.{Kernel, Laws}
use reactor_server.EventLoop.Defs.{isinloopthread}
use reactor_server.EventLoop.Dispatch.{taking}
use reactor_server.EventLoop.Run.{wake, client}
use reactor_server.InetAddress.{Inet, InetLaws}
use reactor_server.Socket.Net.{Net, NetLaws}
use reactor_server.TcpServer.Accept.{client_socket}
use reactor_server.TcpServer.Create as TcpServer
use reactor_server.TcpServer.Create.{timercallback}
use reactor_server.TcpServer.Defs.{newconnection}
use reactor_server.TcpServer.Maps.{loop_of}
use reactor_server.TcpServer.Ready.{IsUp}
use reactor_server.World.{Conn}

module _ (n : Net) (net_laws : NetLaws n) (i : Inet) (inet_laws : InetLaws i) (k : Kernel)
    (laws : Laws k) where
  -- A server with workers, in any state that it reaches from its construction, accepts a client,
  -- which sends bytes without a NUL; there is no other task for the workers, nor for the loop of
  -- the client. That loop reads them, a worker, another thread, runs the task that this makes,
  -- which makes the loop's eventfd readable, the loop is woken, and its socket takes all that there
  -- is to send: each of these four steps returns. Between the last two, "WORK thread " and the
  -- bytes are what waits to be sent; after them nothing waits, the connection is open and watched,
  -- and the state is one that the server reaches.
  pub new_client-served :
      (a port' threadnum workers : ℕ) (x : TcpServer.Server n k Echo) (w w₀ : State k)
      (io thread fd port now fuel takes : ℕ) (ip : List ℕ) (clock : ℕ → ℕ) (reads rest : List Read)
      → IsUp n net_laws i inet_laws k laws a port' x
      → x.world.outer ≡ new_echo n net_laws i inet_laws k laws threadnum workers
      → 0 < threadnum
      → 0 < workers
      → Reach k laws x.world w
      → IsFree k laws fd w
      → newconnection (callbacks io) (client_socket fd ip port) now w ≡ ok w₀
      → (w₀.loops (loop_of fd w)).taskqueue ≡ []
      → isinloopthread thread (w₀.loops (loop_of fd w)) ≡ false
      → w₀.outer.user.tasks ≡ []
      → GoesOn reads
      → 0 < length (bytes_of reads)
      → NulFree (bytes_of reads)
      → length (work_prefix ++ bytes_of reads) ≤ takes
      → let p = w.outer.next in
        let l = loop_of fd w in
        (w₁ w₂ w₃ w₄ : State k) × (runs k laws io l
            (coming fuel clock reads rest)
            (returned ((client p, 1) ∷ []))
            w₀
          ≡ ok w₁)
        × (work 0 thread w₁ ≡ ok w₂)
        × (laws.pending (w₂.loops l).kernel ≡ true)
        × (runs k laws io l (taking 0) (returned ((wake, 1) ∷ [])) w₂ ≡ ok w₃)
        × ((w₃.objs p).outputbuffer.buf ≡ work_prefix ++ bytes_of reads)
        × (runs k laws io l (taking takes) (returned ((client p, 4) ∷ [])) w₃ ≡ ok w₄)
        × ((w₄.objs p).outputbuffer.buf ≡ [])
        × ((w₄.objs p).disconnect ≡ false)
        × IsLive k laws p w₄
        × Reach k laws x.world w₄
  new_client-served a port' threadnum workers x w w₀ io thread fd port now fuel takes ip clock reads
        rest up new some_loops some_ r free accepted idle other none_ goes pos text all =
      let inv =
        Reach-Inv n net_laws i inet_laws k laws a port' threadnum workers x w up new some_loops r in
      let (at, next, same) = newconnection-at k laws io fd ip port now w w₀ inv accepted in
      let reached = Reach.step r (accepts io fd port now ip w₀ free accepted) in
      let crew =
        Reach-workers n net_laws i inet_laws k laws a port' threadnum workers x w₀ up new some_loops
          reached in
      let o : IsOpen k laws w.outer.next w₀ = record {
        made = omega (arith, next);
        is_open = ap (λ (c : Conn). c.disconnect) at;
      } in
      let (
        w₁, w₂, w₃, w₄, received, worked, signalled, woken, out, sent, left, open_, live, goes_on,
      ) =
        served k laws io thread (loop_of fd w) w.outer.next fuel takes clock reads rest w₀
          (newconnection-Inv k laws io fd ip port now w w₀ inv free accepted) o
          (ap (λ (c : Conn). c.loop) at) (ap (λ (c : Conn). c.inputbuffer) at)
          (ap (λ (c : Conn). c.outputbuffer.buf) at) idle other none_ (rw crew some_) goes pos text
          all in
      (
        w₁,
        w₂,
        w₃,
        w₄,
        received,
        worked,
        signalled,
        woken,
        out,
        sent,
        left,
        open_,
        live,
        goes_on x.world reached,
      )
