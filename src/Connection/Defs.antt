-- ===== src/Connection/Defs.antt =====
-- The methods of `Connection`. The answers of `read` and `send` and the clock are arguments.
use reactor_server.Base.{
  ℕ, zero, suc, Bool, true, false, Option, none, some, List, [], ◌∷◌, length, ltb, ◌==◌,
  if◌then◌else◌, Outcome, ok, fault, exits, undefined, killed, out_of_fuel, bad_function_call,
  ◌>>=◌,
}
use reactor_server.Buffer.{Buffer, Picked, append, erase, size, pickmessage}
use reactor_server.Buffer as Buffer
use reactor_server.Channel.State.{Channel, Callbacks, handleevent}
use reactor_server.Channel.State as State
use reactor_server.Channel.Watch.{enablereading, enablewriting, disablewriting, remove}
use reactor_server.Epoll.Kernel.{Kernel}
use reactor_server.EventLoop.Defs.{isinloopthread, queueinloop}
use reactor_server.Socket.Defs.{Socket}
use reactor_server.World.{Conn, World, Call, invoke, put_conn, put_loop, on_channel}

-- An answer of `read`: bytes, a signal, nothing for now, the peer's end, or another error.
pub data Read : Type 0 where
  got : ℕ → List ℕ → Read
  interrupted would_block other_error closed : Read

-- `strdup` copies to the first NUL, and reads on until it finds one.
unfoldable pub strdup : List ℕ → Outcome (List ℕ)
strdup [] = fault undefined
strdup (b ∷ s) = let rest = strdup s in if b == 0 then ok (b ∷ []) else (do r ← rest; ok (b ∷ r))

-- An answer of `::send`: so many bytes were taken; none for now, or another error; or the peer reads no
-- more, for which, without MSG_NOSIGNAL, the kernel raises SIGPIPE before the call answers EPIPE.
pub data Sent : Type 0 where
  took : ℕ → Sent
  refused broken_pipe : Sent

module _ (k : Kernel) (S : Type 0) where
  -- The std::function members, by the pointer of the connection that they are given.
  pub record Handlers : Type 0 where
    pub closecallback_ : Call k S
    pub errorcallback_ : Call k S
    pub onmessagecallback_ : Option (ℕ → List ℕ → World k S → Outcome (List ℕ × World k S))
    pub sendcompletecallback_ : Call k S

module _ {k : Kernel} {S : Type 0} where
  abbrev pub no_handlers : Handlers k S
  no_handlers = record {
    closecallback_ = none;
    errorcallback_ = none;
    onmessagecallback_ = none;
    sendcompletecallback_ = none;
  }

  abbrev pub setclosecallback : (ℕ → World k S → Outcome (World k S)) → Handlers k S → Handlers k S
  setclosecallback fn h = record h { closecallback_ = some fn }

  abbrev pub seterrorcallback : (ℕ → World k S → Outcome (World k S)) → Handlers k S → Handlers k S
  seterrorcallback fn h = record h { errorcallback_ = some fn }

  abbrev pub setonmessagecallback :
      (ℕ → List ℕ → World k S → Outcome (List ℕ × World k S)) → Handlers k S → Handlers k S
  setonmessagecallback fn h = record h { onmessagecallback_ = some fn }

  abbrev pub setsendcompletecallback :
      (ℕ → World k S → Outcome (World k S)) → Handlers k S → Handlers k S
  setsendcompletecallback fn h = record h { sendcompletecallback_ = some fn }

  abbrev pub invoke_message :
      Option (ℕ → List ℕ → World k S → Outcome (List ℕ × World k S))
      → ℕ
      → List ℕ
      → World k S
      → Outcome (List ℕ × World k S)
  invoke_message none p m w = fault bad_function_call
  invoke_message (some fn) p m w = fn p m w

  unfoldable pub sendinloop : ℕ → List ℕ → ℕ → World k S → Outcome (World k S)
  sendinloop p block n w = do
    o ← append (w.objs p).outputbuffer block n
    on_channel (enablewriting k) p (put_conn p (record (w.objs p) { outputbuffer = o }) w)

  -- `thread` is the thread that calls.
  unfoldable pub send : ℕ → ℕ → List ℕ → ℕ → World k S → Outcome (World k S)
  unfolding isinloopthread queueinloop
  send thread p block n w =
      let l = (w.objs p).loop in
      if (w.objs p).disconnect
      then ok w
      else if isinloopthread thread (w.loops l)
      then (do copy ← strdup block; sendinloop p copy n w)
      else (do
        copy ← strdup block
        ok (put_loop l (queueinloop (record { target = p; block = copy; size = n }) (w.loops l)) w))

  module _ (h : Handlers k S) where
    -- `disconnect_=true; clientchannel_->remove();`
    unfoldable pub disconnect : ℕ → World k S → Outcome (World k S)
    disconnect p w =
        on_channel (remove k) p (put_conn p (record (w.objs p) { disconnect = true }) w)

    unfoldable pub closecallback : ℕ → World k S → Outcome (World k S)
    unfolding disconnect
    closecallback p w = do w' ← disconnect p w; invoke h.closecallback_ p w'

    unfoldable pub errorcallback : ℕ → World k S → Outcome (World k S)
    unfolding disconnect
    errorcallback p w = do w' ← disconnect p w; invoke h.errorcallback_ p w'

    -- `answer` is that of `::send`.
    unfoldable pub writecallback : Sent → ℕ → World k S → Outcome (World k S)
    unfolding size
    writecallback answer p w = do
      o ← elim answer [
        | took writen ↦
            if ltb 0 writen
            then erase (w.objs p).outputbuffer 0 writen
            else ok (w.objs p).outputbuffer
        | refused ↦ ok (w.objs p).outputbuffer
        | broken_pipe ↦ fault killed
      ]
      let w' = put_conn p (record (w.objs p) { outputbuffer = o }) w
      if size o == 0
          then (do w₂ ← on_channel (disablewriting k) p w'; invoke h.sendcompletecallback_ p w₂)
          else ok w'

    -- The messages that the input buffer holds. `clock` tells the time in each round.
    unfoldable pub drain : ℕ → (ℕ → ℕ) → ℕ → ℕ → List ℕ → World k S → Outcome (World k S)
    drain zero clock round p message w = fault out_of_fuel
    drain (suc fuel) clock round p message w = do
      picked ← pickmessage (w.objs p).inputbuffer message
      let w₁ = put_conn p (record (w.objs p) { inputbuffer = picked.rest }) w
      let w₂ = put_conn p (record (w₁.objs p) { lasttime = clock round }) w₁
      elim picked.found [
        | false ↦ ok w₁
        | true ↦ do
          (message', w₃) ← invoke_message h.onmessagecallback_ p picked.ss w₂
          drain fuel clock (suc round) p message' w₃
      ]

    -- The bytes of one `read` are put behind those of the earlier ones.
    unfoldable pub keep_input : ℕ → List ℕ → World k S → Outcome (World k S)
    keep_input p bytes w = do
      b ← append (w.objs p).inputbuffer bytes (length bytes)
      ok (put_conn p (record (w.objs p) { inputbuffer = b }) w)

    -- One round for each answer of `read`; a script that ends leaves the thread in the next `read`.
    unfoldable pub onmessage : ℕ → (ℕ → ℕ) → List Read → ℕ → World k S → Outcome (World k S)
    unfolding keep_input closecallback
    onmessage fuel clock [] p w = fault out_of_fuel
    onmessage fuel clock (got b bytes ∷ reads) p w = do
      w' ← keep_input p (b ∷ bytes) w
      onmessage fuel clock reads p w'
    onmessage fuel clock (interrupted ∷ reads) p w = onmessage fuel clock reads p w
    onmessage fuel clock (other_error ∷ reads) p w = onmessage fuel clock reads p w
    onmessage fuel clock (would_block ∷ reads) p w = drain fuel clock 0 p [] w
    onmessage fuel clock (closed ∷ reads) p w = closecallback p w

-- The test of the idle time is commented out.
unfoldable pub timeout : ℕ → ℕ → Conn → Bool
timeout now val c = false

module _ (k : Kernel) where
  -- The constructor; `now` is the time. The four callbacks of the channel are set to the methods
  -- above, and those of the connection not at all. `epoll_ctl` refuses the descriptor -1 (EBADF).
  unfoldable pub create_conn : ℕ → Socket → ℕ → k.State → Outcome (Conn × k.State)
  unfolding Buffer.create State.create
  create_conn l clientsock now s = elim clientsock.fd [
    | none ↦ fault exits
    | some fd ↦ do
      (ch, s') ← enablereading k (State.create fd) s
      ok (
        record {
          loop = l;
          clientsock = clientsock;
          channel = ch;
          inputbuffer = Buffer.create 0;
          outputbuffer = Buffer.create 1;
          disconnect = false;
          lasttime = now;
        },
        s',
      )
  ]

-- What the kernel answers while the callbacks of a channel run.
pub record Answers : Type 0 where
  pub fuel : ℕ
  pub clock : ℕ → ℕ
  pub reads : List Read
  pub answer : Sent

module _ {k : Kernel} {S : Type 0} (h : Handlers k S) where
  -- The callbacks that the constructor sets on `clientchannel_`.
  unfoldable pub channel_callbacks : Answers → ℕ → Callbacks (World k S)
  unfolding State.no_callbacks State.setreadcallback State.setclosecallback State.seterrorcallback
      State.setwritecallback
  channel_callbacks a p =
      State.setwritecallback
        (State.seterrorcallback
          (State.setclosecallback
            (State.setreadcallback State.no_callbacks (onmessage h a.fuel a.clock a.reads p))
            (closecallback h p))
          (errorcallback h p))
        (writecallback h a.answer p)

  -- An event of a connection's channel.
  unfoldable pub handle : Answers → ℕ → World k S → Outcome (World k S)
  unfolding channel_callbacks handleevent
  handle a p w = handleevent (w.objs p).channel (channel_callbacks a p) w
