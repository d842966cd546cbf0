-- ===== src/Connection/Input.antt =====
-- What arrives: all that `read` gives in one event reaches the server's callback, in order.
use native.Mathlib.Nat.{zero-add}
use reactor_server.Base.{
  ℕ, suc, ◌<◌, ◌≡◌, ap, ◌∙◌, true, false, List, [], ◌∷◌, ◌++◌, append_assoc, append-nil, length,
  take-all, drop-all, ok, arith,
}
use reactor_server.Buffer.{Buffer, pickmessage, pick_all}
use reactor_server.Connection.Defs.{
  Handlers, Read, got, interrupted, would_block, other_error, closed, drain, keep_input, onmessage,
  invoke_message,
}
use reactor_server.Connection.Output.{append-ok}
use reactor_server.Epoll.Kernel.{Kernel}
use reactor_server.World.{Conn, World, put_conn, put_conn-same, put_conn-twice, put_conn-at}

-- A buffer with no message header gives all that it holds as one message, once.
pub pick-all :
    (s ss : List ℕ)
    → 0 < length s
    → pickmessage (record { buf = s; sep = 0 }) ss
      ≡ ok (record { found = true; ss = s; rest = record { buf = []; sep = 0 } })
unfolding pickmessage pick_all
pick-all s ss h =
    rw (zero-add (length s)) (ground (arith, take-all (length s) s, drop-all (length s) s))

pub pick-nothing :
    (b : Buffer) (ss : List ℕ)
    → b.buf ≡ []
    → pickmessage b ss ≡ ok (record { found = false; ss = ss; rest = b })
unfolding pickmessage
pick-nothing b ss e = ground arith

-- The bytes that the answers of `read` bring.
abbrev pub bytes_of : List Read → List ℕ
bytes_of [] = []
bytes_of (got b bytes ∷ reads) = (b ∷ bytes) ++ bytes_of reads
bytes_of (r ∷ reads) = bytes_of reads

-- Neither the end of what there is to read, nor of the connection.
abbrev pub GoesOn : List Read → Type 0
GoesOn [] = Unit
GoesOn (would_block ∷ reads) = ⊥
GoesOn (closed ∷ reads) = ⊥
GoesOn (r ∷ reads) = GoesOn reads

abbrev fed_conn : List ℕ → Conn → Conn
fed_conn bytes c = record c {
  inputbuffer = record c.inputbuffer { buf = c.inputbuffer.buf ++ bytes };
}

module _ {k : Kernel} {S : Type 0} where
  -- Bytes put behind a connection's input.
  abbrev pub fed : ℕ → List ℕ → World k S → World k S
  fed p bytes w =
      put_conn p
        (record (w.objs p) {
          inputbuffer = record (w.objs p).inputbuffer { buf = (w.objs p).inputbuffer.buf ++ bytes };
        })
        w

  pub input-fed :
      (p : ℕ) (bytes : List ℕ) (w : World k S) (old : List ℕ)
      → (w.objs p).inputbuffer ≡ record { buf = old; sep = 0 }
      → ((fed p bytes w).objs p).inputbuffer ≡ record { buf = old ++ bytes; sep = 0 }
  input-fed p bytes w old e =
      rw (put_conn-at p (fed_conn bytes (w.objs p)) w)
        (ap (λ (b : Buffer). record b { buf = b.buf ++ bytes }) e)

  taken-fed :
      (p : ℕ) (bytes : List ℕ) (w : World k S) (b : Buffer) (time : ℕ)
      → put_conn p
          (record ((fed p bytes w).objs p) { inputbuffer = b; lasttime = time })
          (fed p bytes w)
        ≡ put_conn p (record (w.objs p) { inputbuffer = b; lasttime = time }) w
  taken-fed p bytes w b time =
      rw (put_conn-at p (fed_conn bytes (w.objs p)) w) (put_conn-twice p _ _ w)

  fed-nothing : (p : ℕ) (w : World k S) → fed p [] w ≡ w
  fed-nothing p w = rw append-nil (put_conn-same p w)

  fed-fed : (p : ℕ) (b c : List ℕ) (w : World k S) → fed p c (fed p b w) ≡ fed p (b ++ c) w
  fed-fed p b c w =
      rw (put_conn-at p _ w, append_assoc (w.objs p).inputbuffer.buf b c) (put_conn-twice p _ _ w)

  module _ (h : Handlers k S) where
    pub keep_input-fed :
        (p : ℕ) (bytes : List ℕ) (w : World k S) → keep_input h p bytes w ≡ ok (fed p bytes w)
    unfolding keep_input
    keep_input-fed p bytes w = rw (
      append-ok (w.objs p).inputbuffer bytes (length bytes) (omega arith),
      take-all (length bytes) bytes (omega arith),
    )

    -- Up to the answer that there is no more to read, the answers of `read` only add to the input.
    pub onmessage-fed :
        (fuel : ℕ) (clock : ℕ → ℕ) (reads rest : List Read) (p : ℕ) (w : World k S)
        → GoesOn reads
        → onmessage h fuel clock (reads ++ would_block ∷ rest) p w
          ≡ drain h fuel clock 0 p [] (fed p (bytes_of reads) w)
    unfolding onmessage
    onmessage-fed fuel clock [] rest p w g = rw (fed-nothing p w)
    onmessage-fed fuel clock (got b bytes ∷ reads) rest p w g =
        rw (keep_input-fed p (b ∷ bytes) w) (
          onmessage-fed fuel clock reads rest p (fed p (b ∷ bytes) w) g
          ∙ ap (drain h fuel clock 0 p []) (fed-fed p (b ∷ bytes) (bytes_of reads) w))
    onmessage-fed fuel clock (interrupted ∷ reads) rest p w g =
        onmessage-fed fuel clock reads rest p w g
    onmessage-fed fuel clock (other_error ∷ reads) rest p w g =
        onmessage-fed fuel clock reads rest p w g
    onmessage-fed fuel clock (would_block ∷ reads) rest p w g = absurd g
    onmessage-fed fuel clock (closed ∷ reads) rest p w g = absurd g

    -- With no message in the input the loop over its messages ends.
    pub drain-none :
        (fuel : ℕ) (clock : ℕ → ℕ) (round p : ℕ) (ss : List ℕ) (w : World k S)
        → pickmessage (w.objs p).inputbuffer ss
          ≡ ok (record { found = false; ss = ss; rest = (w.objs p).inputbuffer })
        → drain h (suc fuel) clock round p ss w ≡ ok w
    unfolding drain
    drain-none fuel clock round p ss w e = rw e (ap ok (put_conn-same p w))

    -- One round that finds a message: `v` is the world in which the callback is called.
    pub drain-message :
        (fuel : ℕ) (clock : ℕ → ℕ) (round p : ℕ) (ss m m' : List ℕ) (b : Buffer)
        (w v w' : World k S)
        → pickmessage (w.objs p).inputbuffer ss ≡ ok (record { found = true; ss = m; rest = b })
        → put_conn p
            (record ((put_conn p (record (w.objs p) { inputbuffer = b }) w).objs p) {
              lasttime = clock round;
            })
            (put_conn p (record (w.objs p) { inputbuffer = b }) w)
          ≡ v
        → invoke_message h.onmessagecallback_ p m v ≡ ok (m', w')
        → drain h (suc fuel) clock round p ss w ≡ drain h fuel clock (suc round) p m' w'
    unfolding drain
    drain-message fuel clock round p ss m m' b w v w' e ev cb = rw (e, ev, cb)

    pub then_time :
        (p time : ℕ) (b : Buffer) (w : World k S)
        → put_conn p
            (record ((put_conn p (record (w.objs p) { inputbuffer = b }) w).objs p) {
              lasttime = time;
            })
            (put_conn p (record (w.objs p) { inputbuffer = b }) w)
          ≡ put_conn p (record (w.objs p) { inputbuffer = b; lasttime = time }) w
    then_time p time b w =
        rw (put_conn-at p (record (w.objs p) { inputbuffer = b }) w) (put_conn-twice p _ _ w)

    pub drain-all :
        (fuel : ℕ) (clock : ℕ → ℕ) (round p : ℕ) (ss s m' : List ℕ) (w w' : World k S)
        → (w.objs p).inputbuffer ≡ record { buf = s; sep = 0 }
        → 0 < length s
        → invoke_message h.onmessagecallback_ p s (
            put_conn p
              (record (w.objs p) {
                inputbuffer = record { buf = []; sep = 0 };
                lasttime = clock round;
              })
              w)
          ≡ ok (m', w')
        → (w'.objs p).inputbuffer.buf ≡ []
        → drain h (suc (suc fuel)) clock round p ss w ≡ ok w'
    drain-all fuel clock round p ss s m' w w' e pos cb kept =
        drain-message (suc fuel) clock round p ss s m' (record { buf = []; sep = 0 }) w _ w'
          (rw e (pick-all s ss pos)) (then_time p (clock round) _ w) cb
        ∙ drain-none fuel clock (suc round) p m' w' (pick-nothing (w'.objs p).inputbuffer m' kept)

    -- For an input buffer without headers, and a callback that returns and leaves the input empty:
    -- all the bytes that came before the socket ran dry reach the callback as one message, behind
    -- what the input held before, with the input emptied and the time noted. Two units of fuel are
    -- enough.
    pub onmessage-delivers :
        (fuel : ℕ) (clock : ℕ → ℕ) (reads rest : List Read) (p : ℕ) (old m' : List ℕ)
        (w w' : World k S)
        → GoesOn reads
        → (w.objs p).inputbuffer ≡ record { buf = old; sep = 0 }
        → 0 < length (old ++ bytes_of reads)
        → invoke_message h.onmessagecallback_ p (old ++ bytes_of reads) (
            put_conn p
              (record (w.objs p) { inputbuffer = record { buf = []; sep = 0 }; lasttime = clock 0 })
              w)
          ≡ ok (m', w')
        → (w'.objs p).inputbuffer.buf ≡ []
        → onmessage h (suc (suc fuel)) clock (reads ++ would_block ∷ rest) p w ≡ ok w'
    onmessage-delivers fuel clock reads rest p old m' w w' g e pos cb kept =
        onmessage-fed (suc (suc fuel)) clock reads rest p w g
        ∙ drain-all fuel clock 0 p [] (old ++ bytes_of reads) m' (fed p (bytes_of reads) w) w'
            (input-fed p (bytes_of reads) w old e) pos
            (ap (invoke_message h.onmessagecallback_ p (old ++ bytes_of reads))
                (taken-fed p (bytes_of reads) w _ (clock 0))
              ∙ cb)
            kept
