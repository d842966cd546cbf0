-- ===== src/Socket/Net.antt =====
-- The socket calls, and what the manual pages of the section 2 and ip(7), tcp(7), socket(7) promise.
use reactor_server.Base.{ℕ, ◌≡◌, ◌≢◌, Bool, true, false, Option, none, some}
use reactor_server.InetAddress.{SockaddrIn}

-- The options that the program sets, each with its level.
pub data SockOpt : Type 0 where
  tcp_nodelay so_reuseaddr so_reuseport so_keepalive : SockOpt

-- A descriptor as an `int`: `none` is -1.
abbrev pub Fd : Type 0
Fd = Option ℕ

-- The calls, over the kernel's state. `true` stands for an answer of 0, `false` for -1.
pub record Net : Type 1 where
  pub State : Type 0
  -- `socket(AF_INET, SOCK_STREAM | SOCK_NONBLOCK, IPPROTO_TCP)`
  pub socket : State → State × Fd
  -- The program ignores the answer.
  pub setsockopt : Fd → SockOpt → Bool → State → State
  pub bind : Fd → SockaddrIn → State → State × Bool
  pub listen : Fd → ℕ → State → State × Bool
  pub close : Fd → State → State

-- What can be observed of a socket: its options, its name, and how long its queue may be.
pub record Sock : Type 0 where
  pub nodelay : Bool
  pub reuseaddr : Bool
  pub reuseport : Bool
  pub keepalive : Bool
  pub name : Option SockaddrIn
  pub backlog : Option ℕ

abbrev pub fresh : Sock
fresh = record {
  nodelay = false;
  reuseaddr = false;
  reuseport = false;
  keepalive = false;
  name = none;
  backlog = none;
}

abbrev pub set_opt : SockOpt → Bool → Sock → Sock
set_opt tcp_nodelay on x = record x { nodelay = on }
set_opt so_reuseaddr on x = record x { reuseaddr = on }
set_opt so_reuseport on x = record x { reuseport = on }
set_opt so_keepalive on x = record x { keepalive = on }

pub record NetLaws (n : Net) : Type 0 where
  pub sock : n.State → ℕ → Option Sock
  pub made : (fd : ℕ) (s : n.State) → (n.socket s).1 ≡ some fd → sock (n.socket s).0 fd ≡ some fresh
  pub opted :
      (fd : ℕ) (o : SockOpt) (on : Bool) (x : Sock) (s : n.State)
      → sock s fd ≡ some x
      → sock (n.setsockopt (some fd) o on s) fd ≡ some (set_opt o on x)
  -- The port 0 has another meaning.
  pub bound :
      (fd : ℕ) (a : SockaddrIn) (x : Sock) (s : n.State)
      → sock s fd ≡ some x
      → a.sin_port ≢ 0
      → (n.bind (some fd) a s).1 ≡ true
      → sock (n.bind (some fd) a s).0 fd ≡ some (record x { name = some a })
  pub listening :
      (fd nn : ℕ) (x : Sock) (s : n.State)
      → sock s fd ≡ some x
      → x.name ≢ none
      → (n.listen (some fd) nn s).1 ≡ true
      → sock (n.listen (some fd) nn s).0 fd ≡ some (record x { backlog = some nn })
  pub closed : (fd : ℕ) (s : n.State) → sock (n.close (some fd) s) fd ≡ none
