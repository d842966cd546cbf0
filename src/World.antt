-- ===== src/World.antt =====
-- The objects of a running server and the pointers between them: Connection.h, EventLoop.h. A pointer
-- to a `Connection` or to an `EventLoop` is a key of its heap.
use reactor_server.Base.{
  ℕ, ◌≡◌, ap, fun_ext, arith, Bool, Option, none, some, List, ◌==◌, if◌then◌else◌, Outcome, ok,
  fault, bad_function_call, ◌>>=◌,
}
use reactor_server.Buffer.{Buffer}
use reactor_server.Channel.State.{Channel}
use reactor_server.Epoll.Kernel.{Kernel}
use reactor_server.Socket.Defs.{Socket}

-- `std::bind(&Connection::sendinloop, this, dataCopy, size)`
pub record Task : Type 0 where
  pub target : ℕ
  pub block : List ℕ
  pub size : ℕ

pub record Conn : Type 0 where
  -- loop_
  pub loop : ℕ
  pub clientsock : Socket
  -- clientchannel_, which has the descriptor of clientsock_
  pub channel : Channel
  pub inputbuffer : Buffer
  pub outputbuffer : Buffer
  pub disconnect : Bool
  pub lasttime : ℕ

module _ (k : Kernel) where
  pub record Loop : Type 0 where
    pub timetvl : ℕ
    pub timeout : ℕ
    -- ep_ and the eventfd, as the kernel keeps them
    pub kernel : k.State
    pub threadid : ℕ
    pub taskqueue : List Task
    pub wakechannel : Channel
    pub timerchannel : Channel
    pub mainloop : Bool
    pub conns : List (ℕ × ℕ)
    pub stop : Bool

  -- `S` is what the callbacks of the server's user work on.
  pub record World (S : Type 0) : Type 0 where
    pub objs : ℕ → Conn
    pub loops : ℕ → Loop
    pub outer : S

-- A std::function that is given one pointer or number; `none` if it was never set.
abbrev pub Call : Kernel → Type 0 → Type 0
Call k S = Option (ℕ → World k S → Outcome (World k S))

module _ {k : Kernel} {S : Type 0} where
  abbrev pub invoke : Call k S → ℕ → World k S → Outcome (World k S)
  invoke none p w = fault bad_function_call
  invoke (some fn) p w = fn p w

  abbrev pub put_conn : ℕ → Conn → World k S → World k S
  put_conn p c w = record w { objs = λ q. if p == q then c else w.objs q }

  abbrev pub put_loop : ℕ → Loop k → World k S → World k S
  put_loop l x w = record w { loops = λ m. if l == m then x else w.loops m }

  -- A method of a connection's channel: it changes the channel, and the epoll of the connection's loop.
  unfoldable pub on_channel :
      (Channel → k.State → Outcome (Channel × k.State)) → ℕ → World k S → Outcome (World k S)
  on_channel method p w = do
    let c = w.objs p
    let x = w.loops c.loop
    (ch, s) ← method c.channel x.kernel
    ok (put_loop c.loop (record x { kernel = s }) (put_conn p (record c { channel = ch }) w))

module _ {k : Kernel} {S : Type 0} where
  pub put_conn-same : (p : ℕ) (w : World k S) → put_conn p (w.objs p) w ≡ w
  put_conn-same p w = ap (λ o. record w { objs = o }) (fun_ext λ q. ground arith)

  pub put_conn-twice :
      (p : ℕ) (c d : Conn) (w : World k S) → put_conn p d (put_conn p c w) ≡ put_conn p d w
  put_conn-twice p c d w = ap (λ o. record w { objs = o }) (fun_ext λ q. ground arith)

  pub put_conn-at : (p : ℕ) (c : Conn) (w : World k S) → (put_conn p c w).objs p ≡ c
  put_conn-at p c w = ground arith

  pub put_loop-at : (l : ℕ) (x : Loop k) (w : World k S) → (put_loop l x w).loops l ≡ x
  put_loop-at l x w = ground arith
