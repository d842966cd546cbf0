-- ===== src/Samples.antt =====
-- States of a small server, on the kernel of Epoll/Table.antt: loop 1 serves the descriptor 7, which
-- the object 0 stands for. The tests of several parts use them.
use reactor_server.Base.{ℕ, refl, true, false, none, some, List, [], ◌∷◌, ◌==◌, if◌then◌else◌, ok}
use reactor_server.Buffer.{Buffer}
use reactor_server.Channel.State.{Channel}
use reactor_server.Channel.Sync.{IsWatched}
use reactor_server.Connection.Defs.{Handlers}
use reactor_server.Connection.Live.{IsLive}
use reactor_server.Epoll.Table.{Table, table, table_laws}
use reactor_server.World.{Task, Conn, Loop, World}

-- A channel of the descriptor 7, watched for `events`.
abbrev pub channel_7 : ℕ → Channel
channel_7 events = record { fd = 7; inepoll = true; events = events; revents = 0 }

abbrev pub watching_7 : ℕ → Table
watching_7 events = record {
  list = λ j. if 7 == j then some events else none;
  signalled = false;
  seconds = 0;
}

abbrev pub conn_7 : ℕ → Buffer → List ℕ → Conn
conn_7 events input output = record {
  loop = 1;
  clientsock = record { fd = some 7; ip = b'i' ∷ []; port = 9 };
  channel = channel_7 events;
  inputbuffer = input;
  outputbuffer = record { buf = output; sep = 1 };
  disconnect = false;
  lasttime = 0;
}

-- A loop whose thread has the number 5.
abbrev pub loop_7 : ℕ → List Task → Loop table
loop_7 events tasks = record {
  timetvl = 10;
  timeout = 30;
  kernel = watching_7 events;
  threadid = 5;
  taskqueue = tasks;
  wakechannel = record { fd = 3; inepoll = true; events = 1; revents = 0 };
  timerchannel = record { fd = 4; inepoll = true; events = 1; revents = 0 };
  mainloop = false;
  conns = (7, 0) ∷ [];
  stop = false;
}

abbrev pub world_7 : {S : Type 0} → ℕ → Buffer → List ℕ → List Task → S → World table S
world_7 events input output tasks outer = record {
  objs = λ p. conn_7 events input output;
  loops = λ l. loop_7 events tasks;
  outer = outer;
}

abbrev pub plain : List ℕ → Buffer
plain bytes = record { buf = bytes; sep = 0 }

-- The server's callbacks: all return at once, and the one for messages leaves the message.
abbrev pub quiet_handlers : {S : Type 0} → Handlers table S
quiet_handlers = record {
  closecallback_ = some (λ p w. ok w);
  errorcallback_ = some (λ p w. ok w);
  onmessagecallback_ = some (λ p m w. ok (m, w));
  sendcompletecallback_ = some (λ p w. ok w);
}

pub IsWatched-channel_7 :
    (events : ℕ) → IsWatched table table_laws (channel_7 events) (watching_7 events)
IsWatched-channel_7 events = record { flagged = refl; listed = refl }

pub IsLive-world_7 :
    {S : Type 0} (events : ℕ) (input : Buffer) (output : List ℕ) (tasks : List Task) (outer : S)
    → IsLive table table_laws 0 (world_7 events input output tasks outer)
IsLive-world_7 events input output tasks outer = record { flagged = refl; listed = refl }
