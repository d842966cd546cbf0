-- ===== src/Connection/Tests.antt =====
-- The theorems about a connection at a server with one client.
use reactor_server.Base.{
  ℕ, none, bad_function_call, ◌≡◌, refl, List, [], ◌∷◌, ◌++◌, ok, fault, undefined, arith,
}
use reactor_server.Connection.Close.{IsGone, closed_conn, close-IsGone}
use reactor_server.Connection.Defs.{
  interrupted, closed, onmessage, took, Handlers, got, would_block, closecallback, errorcallback,
  send, Answers, handle,
}
use reactor_server.Connection.Early.{handle-unset}
use reactor_server.Connection.Input.{onmessage-delivers}
use reactor_server.Connection.Live.{Touched}
use reactor_server.Connection.Stream.{give, flush, acts, IsFlowing, acts-stream}
use reactor_server.Connection.Text.{c_str, send-nul}
use reactor_server.Epoll.Table.{table, table_laws}
use reactor_server.EventLoop.Defs.{isinloopthread}
use reactor_server.Samples.{channel_7, world_7, conn_7, plain, quiet_handlers, IsLive-world_7}
use reactor_server.World.{put_conn, World}

-- Two bytes wait to be sent, and the channel is watched for EPOLLIN and EPOLLOUT.
abbrev waiting : World table ℕ
waiting = world_7 5 (plain []) (b'a' ∷ b'b' ∷ []) [] 0

flows : IsFlowing table table_laws quiet_handlers 0 (λ w. refl) waiting
flows = record {
  live = IsLive-world_7 {S = ℕ} 5 (plain []) (b'a' ∷ b'b' ∷ []) [] 0;
  watched_for = λ ne. refl;
}

acts-stream_example :
    (sent : List ℕ) × (w' : World table ℕ) × (acts quiet_handlers 0
        (flush 1 ∷ give (b'c' ∷ []) 1 ∷ flush 2 ∷ [])
        waiting
      ≡ ok (sent, w'))
    × (sent ++ (w'.objs 0).outputbuffer.buf ≡ b'a' ∷ b'b' ∷ b'c' ∷ [])
    × IsFlowing table table_laws quiet_handlers 0 (λ w. refl) w'
acts-stream_example =
    acts-stream table table_laws quiet_handlers 0 (λ w. refl)
      (flush 1 ∷ give (b'c' ∷ []) 1 ∷ flush 2 ∷ []) waiting flows (tt, (omega arith, (tt, tt)))

close-IsGone_example :
    (w' : World table ℕ) × (closecallback quiet_handlers 0 waiting ≡ ok w')
    × (errorcallback quiet_handlers 0 waiting ≡ ok w')
    × Touched table table_laws 0 (closed_conn (waiting.objs 0)) waiting w'
    × IsGone table table_laws 0 w'
close-IsGone_example = close-IsGone table table_laws quiet_handlers 0 waiting flows.live

send-nul_example : send 5 0 (c_str (b'h' ∷ 0 ∷ b'i' ∷ [])) 3 waiting ≡ fault undefined
unfolding isinloopthread
send-nul_example =
    send-nul 5 0 (b'h' ∷ []) (b'i' ∷ []) waiting ((λ h. omega (arith, h)), tt) (omega arith) refl
      refl

-- One byte is in the input.
abbrev with_byte : World table ℕ
with_byte = world_7 1 (plain (b'x' ∷ [])) [] [] 0

-- Two more came in two answers, and a signal between them.
onmessage-delivers_example :
    onmessage
      (quiet_handlers {S = ℕ})
      2
      (λ r. 9)
      (got b'y' [] ∷ interrupted ∷ got b'z' [] ∷ would_block ∷ closed ∷ [])
      0
      with_byte
    ≡ ok (put_conn 0 (record (conn_7 1 (plain []) []) { lasttime = 9 }) with_byte)
onmessage-delivers_example =
    onmessage-delivers quiet_handlers 0 (λ r. 9) (got b'y' [] ∷ interrupted ∷ got b'z' [] ∷ [])
      (closed ∷ []) 0 (b'x' ∷ []) (b'x' ∷ b'y' ∷ b'z' ∷ []) with_byte _ tt refl (omega arith) refl
      refl

-- A connection as its constructor leaves it, with EPOLLIN reported.
abbrev early : World table ℕ
early = record with_byte {
  objs = λ p. record (conn_7 1 (plain []) []) { channel = record (channel_7 1) { revents = 1 } };
}

abbrev no_handlers : Handlers table ℕ
no_handlers = record {
  closecallback_ = none;
  errorcallback_ = none;
  onmessagecallback_ = none;
  sendcompletecallback_ = none;
}

abbrev one_byte : Answers
one_byte = record {
  fuel = 2;
  clock = λ r. 9;
  reads = got b'x' [] ∷ would_block ∷ [];
  answer = took 0;
}

handle-unset_example : handle no_handlers one_byte 0 early ≡ fault bad_function_call
handle-unset_example =
    handle-unset no_handlers 1 one_byte (got b'x' [] ∷ []) [] 0 [] early refl refl refl tt refl
      (omega arith) refl refl
