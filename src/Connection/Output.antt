-- ===== src/Connection/Output.antt =====
-- What is to be sent: it is kept in order, and watched for until it is sent.
use reactor_server.Base.{
  ℕ, zero, suc, length-drop, ◌≤◌, ◌<◌, ◌≡◌, refl, List, ◌++◌, length, take, drop, ok, fault, killed,
  if◌then◌else◌, arith, ltb,
}
use reactor_server.Buffer.{Buffer, append, erase, size}
use reactor_server.Channel.Sync.{write_on, write_off, change, wanted}
use reactor_server.Channel.Watch.{disablewriting}
use reactor_server.Connection.Defs.{Handlers, took, refused, broken_pipe, sendinloop, writecallback}
use reactor_server.Connection.Live.{IsLive, Touched, put_conn-change}
use reactor_server.Epoll.Kernel.{Kernel, Laws}
use reactor_server.World.{Conn, World, put_conn, on_channel, invoke}

-- The connection with a block put behind its output, and its channel watched for writing.
abbrev pub queued : List ℕ → ℕ → Conn → Conn
queued block n c = record c {
  outputbuffer = record c.outputbuffer { buf = c.outputbuffer.buf ++ take n block };
  channel = wanted write_on c.channel;
}

pub append-ok :
    (b : Buffer) (block : List ℕ) (n : ℕ)
    → n ≤ length block
    → append b block n ≡ ok (record b { buf = b.buf ++ take n block })
unfolding append
append-ok b block n h = ground arith

-- The connection with the first bytes of its output taken off.
abbrev pub unsent : ℕ → Conn → Conn
unsent n c = record c { outputbuffer = record c.outputbuffer { buf = drop n c.outputbuffer.buf } }

erase-sent :
    (b : Buffer) (n : ℕ)
    → (if ltb 0 n then erase b 0 n else ok b) ≡ ok (record b { buf = drop n b.buf })
unfolding erase
erase-sent b zero = refl
erase-sent b (suc n) = ground arith

module _ (k : Kernel) (laws : Laws k) {S : Type 0} where
  pub sendinloop-Touched :
      (p : ℕ) (block : List ℕ) (n : ℕ) (w : World k S)
      → IsLive k laws p w
      → n ≤ length block
      → (w' : World k S) × (sendinloop p block n w ≡ ok w')
        × Touched k laws p (queued block n (w.objs p)) w w'
        × IsLive k laws p w'
  unfolding sendinloop change
  sendinloop-Touched p block n w live h =
      let o = record (w.objs p).outputbuffer {
        buf = (w.objs p).outputbuffer.buf ++ take n block;
      } in
      let (w', done, t, live') =
        put_conn-change k laws write_on p (record (w.objs p) { outputbuffer = o }) w live refl
          refl in
      (w', rw (append-ok (w.objs p).outputbuffer block n h) done, t, live')

  -- Not all was sent: the rest stays, and neither the channel nor a callback is touched.
  pub writecallback-rest :
      (h : Handlers k S) (p n : ℕ) (w : World k S)
      → n < length (w.objs p).outputbuffer.buf
      → writecallback h (took n) p w ≡ ok (put_conn p (unsent n (w.objs p)) w)
  unfolding writecallback size
  writecallback-rest h p n w lt =
      rw (erase-sent (w.objs p).outputbuffer n)
        (ground (arith, length-drop n (w.objs p).outputbuffer.buf))

  writecallback-emptied :
      (h : Handlers k S) (p n : ℕ) (w w' : World k S)
      → length (w.objs p).outputbuffer.buf ≤ n
      → on_channel (disablewriting k) p (put_conn p (unsent n (w.objs p)) w) ≡ ok w'
      → writecallback h (took n) p w ≡ invoke h.sendcompletecallback_ p w'
  unfolding writecallback size
  writecallback-emptied h p n w w' le e =
      rw (erase-sent (w.objs p).outputbuffer n)
        (ground (arith, length-drop n (w.objs p).outputbuffer.buf))

  -- An error keeps all of it, as if no byte was taken; a broken pipe ends the process.
  pub writecallback-refused :
      (h : Handlers k S) (p : ℕ) (w : World k S)
      → writecallback h refused p w ≡ writecallback h (took 0) p w
  unfolding writecallback
  writecallback-refused h p w = refl

  pub writecallback-broken_pipe :
      (h : Handlers k S) (p : ℕ) (w : World k S) → writecallback h broken_pipe p w ≡ fault killed
  unfolding writecallback
  writecallback-broken_pipe h p w = refl

  -- All was sent: the channel is no longer watched for writing, and then the callback runs.
  pub writecallback-all :
      (h : Handlers k S) (p n : ℕ) (w : World k S)
      → IsLive k laws p w
      → length (w.objs p).outputbuffer.buf ≤ n
      → (w' : World k S) × (writecallback h (took n) p w ≡ invoke h.sendcompletecallback_ p w')
        × Touched k laws p
            (record (unsent n (w.objs p)) { channel = wanted write_off (w.objs p).channel })
            w
            w'
        × IsLive k laws p w'
  unfolding change
  writecallback-all h p n w live le =
      let (w', done, t, live') =
        put_conn-change k laws write_off p (unsent n (w.objs p)) w live refl refl in
      (w', writecallback-emptied h p n w w' le done, t, live')
