-- ===== src/Connection/Early.antt =====
-- An event of a connection before `TcpServer::newconnection` has set its callbacks.
use reactor_server.Base.{
  ℕ, suc, ◌≡◌, ◌<◌, refl, ◌∙◌, true, false, none, List, [], ◌∷◌, ◌++◌, length, fault,
  bad_function_call,
}
use reactor_server.Channel.State.{handleevent, call, has, epollin, epollrdhup}
use reactor_server.Channel.State as State
use reactor_server.Connection.Defs.{
  Handlers, Read, Answers, would_block, drain, onmessage, handle, channel_callbacks,
}
use reactor_server.Connection.Input.{GoesOn, bytes_of, fed, onmessage-fed, input-fed, pick-all}
use reactor_server.Epoll.Kernel.{Kernel}
use reactor_server.World.{World}

module _ {k : Kernel} {S : Type 0} (h : Handlers k S) where
  drain-unset :
      (fuel : ℕ) (clock : ℕ → ℕ) (round p : ℕ) (ss s : List ℕ) (w : World k S)
      → h.onmessagecallback_ ≡ none
      → (w.objs p).inputbuffer ≡ record { buf = s; sep = 0 }
      → 0 < length s
      → drain h (suc fuel) clock round p ss w ≡ fault bad_function_call
  unfolding drain
  drain-unset fuel clock round p ss s w unset e pos = rw (e, pick-all s ss pos, unset) refl

  handle-onmessage :
      (a : Answers) (p : ℕ) (w : World k S)
      → has (w.objs p).channel.revents epollrdhup ≡ false
      → has (w.objs p).channel.revents epollin ≡ true
      → handle h a p w ≡ onmessage h a.fuel a.clock a.reads p w
  unfolding handle handleevent channel_callbacks State.setreadcallback State.setclosecallback
      State.seterrorcallback State.setwritecallback
  handle-onmessage a p w no_end data_ = rw (no_end, data_) refl

  -- Bytes come for a connection whose callback for messages is not set, with an input buffer
  -- without headers, and EPOLLRDHUP is not reported with EPOLLIN: the loop's thread calls an empty
  -- std::function.
  pub handle-unset :
      (fuel : ℕ) (a : Answers) (reads rest : List Read) (p : ℕ) (old : List ℕ) (w : World k S)
      → h.onmessagecallback_ ≡ none
      → a.fuel ≡ suc fuel
      → a.reads ≡ reads ++ would_block ∷ rest
      → GoesOn reads
      → (w.objs p).inputbuffer ≡ record { buf = old; sep = 0 }
      → 0 < length (old ++ bytes_of reads)
      → has (w.objs p).channel.revents epollrdhup ≡ false
      → has (w.objs p).channel.revents epollin ≡ true
      → handle h a p w ≡ fault bad_function_call
  handle-unset fuel a reads rest p old w unset ef er goes e pos no_end data_ =
      handle-onmessage a p w no_end data_
      ∙ rw (ef, er)
          (onmessage-fed h (suc fuel) a.clock reads rest p w goes
            ∙ drain-unset fuel a.clock 0 p [] (old ++ bytes_of reads) (fed p (bytes_of reads) w)
                unset (input-fed p (bytes_of reads) w old e) pos)
