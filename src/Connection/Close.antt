-- ===== src/Connection/Close.antt =====
-- The end of a connection: its channel leaves the epoll, and what comes later ends the process.
use reactor_server.Base.{ℕ, ◌≤◌, ◌≡◌, refl, true, List, ◌++◌, length, take, ok, fault, exits}
use reactor_server.Channel.Sync.{wanted, all_off, write_on, change, IsStale}
use reactor_server.Connection.Defs.{
  Handlers, sendinloop, send, disconnect, closecallback, errorcallback,
}
use reactor_server.Connection.Live.{
  IsLive, Touched, on_channel-remove_at, put_conn-Touched, put_conn_self, on_channel-stale,
}
use reactor_server.Connection.Output.{append-ok}
use reactor_server.Epoll.Kernel.{Kernel, Laws}
use reactor_server.World.{Conn, World, invoke, put_conn}

-- A connection that was closed: marked, and watched for nothing.
abbrev pub closed_conn : Conn → Conn
closed_conn c = record c { disconnect = true; channel = wanted all_off c.channel }

module _ (k : Kernel) (laws : Laws k) {S : Type 0} where
  -- The connection's channel was removed from the epoll of its loop.
  abbrev pub IsGone : ℕ → World k S → Type 0
  IsGone p w = IsStale k laws (w.objs p).channel (w.loops (w.objs p).loop).kernel

  module _ (h : Handlers k S) where
    disconnect-IsGone :
        (p : ℕ) (w : World k S)
        → IsLive k laws p w
        → (w' : World k S) × (disconnect h p w ≡ ok w')
          × Touched k laws p (closed_conn (w.objs p)) w w'
          × IsGone p w'
    unfolding disconnect
    disconnect-IsGone p w live =
        let c = record (w.objs p) { disconnect = true } in
        let (w', done, t, gone) =
          on_channel-remove_at k laws p c (put_conn p c w) (put_conn_self k laws p c w) live in
        (w', done, put_conn-Touched k laws p c _ w w' refl refl t, gone)

    -- Both ends of a live connection, by its peer and by an error, mark it as closed and take its
    -- channel off the epoll of its loop, with the other descriptors left alone, and then hand it to
    -- the server's callback for that end.
    pub close-IsGone :
        (p : ℕ) (w : World k S)
        → IsLive k laws p w
        → (w' : World k S) × (closecallback h p w ≡ invoke h.closecallback_ p w')
          × (errorcallback h p w ≡ invoke h.errorcallback_ p w')
          × Touched k laws p (closed_conn (w.objs p)) w w'
          × IsGone p w'
    unfolding closecallback errorcallback
    close-IsGone p w live =
        let (w', done, t, gone) = disconnect-IsGone p w live in (w', rw done, rw done, t, gone)

  -- `sendinloop` does not look at `disconnect_`: on a connection whose channel was removed, and
  -- with a block of at least the stated size, it asks for a change of that channel, and
  -- `Epoll::updatechannel` ends the process.
  pub sendinloop-gone :
      (p : ℕ) (block : List ℕ) (n : ℕ) (w : World k S)
      → IsGone p w
      → n ≤ length block
      → sendinloop p block n w ≡ fault exits
  unfolding sendinloop change
  sendinloop-gone p block n w gone h =
      rw (append-ok (w.objs p).outputbuffer block n h)
        (on_channel-stale k laws write_on p (put_conn p c w) (rw (put_conn_self k laws p c w) gone))
    where
      c : Conn
      c = record (w.objs p) {
        outputbuffer = record (w.objs p).outputbuffer {
          buf = (w.objs p).outputbuffer.buf ++ take n block;
        };
      }

  -- `send` itself does: from any thread it leaves a closed connection alone.
  pub send-disconnected :
      (thread p : ℕ) (block : List ℕ) (n : ℕ) (w : World k S)
      → (w.objs p).disconnect ≡ true
      → send thread p block n w ≡ ok w
  unfolding send
  send-disconnected thread p block n w e = rw e
