-- ===== src/Socket/Table.antt =====
-- A kernel whose state is the sockets themselves, and a C library that writes an address as its four
-- numbers: the promises can be met.
use reactor_server.Base.{
  ℕ, suc, ◌+◌, ◌-◌, ◌*◌, ◌/◌, ◌%◌, ◌^◌, ◌≡◌, Bool, true, false, Option, none, some, List, [], ◌∷◌,
  ◌==◌, if◌then◌else◌, arith,
}
use reactor_server.InetAddress.{Inet, InetLaws}
use reactor_server.Socket.Net.{Net, NetLaws, Fd, Sock, fresh, set_opt}

pub record Sockets : Type 0 where
  pub list : ℕ → Option Sock
  pub next : ℕ

abbrev put : ℕ → Option Sock → Sockets → Sockets
put fd x t = record t { list = λ j. if fd == j then x else t.list j }

-- A call on a descriptor: it fails where there is no socket.
abbrev on_sock : (Sock → Sock) → Fd → Sockets → Sockets × Bool
on_sock f none t = (t, false)
on_sock f (some fd) t = elim (t.list fd) [
  | none ↦ (t, false)
  | some x ↦ (put fd (some (f x)) t, true)
]

abbrev close_fd : Fd → Sockets → Sockets
close_fd none t = t
close_fd (some fd) t = put fd none t

abbrev pub sockets : Net
sockets = record {
  State = Sockets;
  socket = λ t. (put t.next (some fresh) (record t { next = suc t.next }), some t.next);
  setsockopt = λ fd o on t. (on_sock (set_opt o on) fd t).0;
  bind = λ fd a. on_sock (λ x. record x { name = some a }) fd;
  listen = λ fd nn. on_sock (λ x. record x { backlog = some nn }) fd;
  close = close_fd;
}

pub put_at : (fd : ℕ) (x : Option Sock) (t : Sockets) → (put fd x t).list fd ≡ x
put_at fd x t = ground arith

pub on_sock_at :
    (f : Sock → Sock) (fd : ℕ) (x : Sock) (t : Sockets)
    → t.list fd ≡ some x
    → (on_sock f (some fd) t).0.list fd ≡ some (f x)
on_sock_at f fd x t e = rw (on_sock, e) (put_at fd (some (f x)) t)

abbrev pub sockets_laws : NetLaws sockets
sockets_laws = record {
  sock = λ t. t.list;
  made = λ fd t e. ground (arith, e);
  opted = λ fd o on x t e. on_sock_at (set_opt o on) fd x t e;
  bound = λ fd a x t e ne done. on_sock_at (λ y. record y { name = some a }) fd x t e;
  listening = λ fd nn x t e ne done. on_sock_at (λ y. record y { backlog = some nn }) fd x t e;
  closed = λ fd t. put_at fd none t;
}

abbrev pub no_sockets : Sockets
no_sockets = record { list = λ j. none; next = 8 }

abbrev read_numbers : List ℕ → ℕ
read_numbers (a ∷ b ∷ c ∷ d ∷ []) = a + 256 * b + 65536 * c + 16777216 * d
read_numbers s = 2 ^ 32 - 1

abbrev pub numbers : Inet
numbers = record {
  inet_addr = read_numbers;
  inet_ntoa = λ a. a % 256 ∷ a / 256 % 256 ∷ a / 65536 % 256 ∷ a / 16777216 % 256 ∷ [];
}

abbrev pub numbers_laws : InetLaws numbers
numbers_laws = record { addr_ntoa = λ a h. omega arith }
