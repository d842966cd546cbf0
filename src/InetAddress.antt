-- ===== src/InetAddress.antt =====
-- InetAddress.h and InetAddress.cpp: an address and a port, as the socket calls take them.
use reactor_server.Base.{ℕ, ◌+◌, ◌*◌, ◌/◌, ◌%◌, ◌^◌, ◌<◌, ◌≡◌, ap, List, arith}

-- `sockaddr_in`. The address and the port stand in network order, read as the machine reads them.
pub record SockaddrIn : Type 0 where
  pub sin_family : ℕ
  pub sin_addr : ℕ
  pub sin_port : ℕ

abbrev pub af_inet : ℕ
af_inet = 2

-- `htons` and `ntohs` on a little-endian machine: the two bytes change places.
abbrev pub htons : ℕ → ℕ
htons x = x % 256 * 256 + x / 256 % 256

abbrev pub ntohs : ℕ → ℕ
ntohs x = x % 256 * 256 + x / 256 % 256

-- The text of an address, by the C library.
pub record Inet : Type 0 where
  pub inet_addr : List ℕ → ℕ
  pub inet_ntoa : ℕ → List ℕ

-- inet(3): what `inet_ntoa` prints, `inet_addr` reads.
pub record InetLaws (i : Inet) : Type 0 where
  pub addr_ntoa : (a : ℕ) → a < 2 ^ 32 → i.inet_addr (i.inet_ntoa a) ≡ a

-- The class. Its first constructor leaves `addr_` as the memory is: `from_addr`, with any value.
pub record InetAddress : Type 0 where
  pub addr_ : SockaddrIn

unfoldable pub from_addr : SockaddrIn → InetAddress
from_addr addr = record { addr_ = addr }

unfoldable pub setaddr : InetAddress → SockaddrIn → InetAddress
setaddr a clientaddr = record a { addr_ = clientaddr }

unfoldable pub addr : InetAddress → SockaddrIn
addr a = a.addr_

unfoldable pub port : InetAddress → ℕ
port a = ntohs a.addr_.sin_port

module _ (i : Inet) where
  -- `port` is a `uint16_t`.
  unfoldable pub from_text : List ℕ → ℕ → InetAddress
  from_text ip port = record {
    addr_ = record { sin_family = af_inet; sin_addr = i.inet_addr ip; sin_port = htons port };
  }

  unfoldable pub ip : InetAddress → List ℕ
  ip a = i.inet_ntoa a.addr_.sin_addr

pub ntohs-htons : (x : ℕ) → x < 65536 → ntohs (htons x) ≡ x
ntohs-htons x h = omega arith

pub htons-ntohs : (x : ℕ) → x < 65536 → htons (ntohs x) ≡ x
htons-ntohs x h = omega arith

module _ (i : Inet) (laws : InetLaws i) where
  pub port-from_text : (text : List ℕ) (p : ℕ) → p < 65536 → port (from_text i text p) ≡ p
  unfolding port from_text
  port-from_text text p h = ntohs-htons p h

  pub ip-from_text : (a p : ℕ) → a < 2 ^ 32 → ip i (from_text i (i.inet_ntoa a) p) ≡ i.inet_ntoa a
  unfolding ip from_text
  ip-from_text a p h = ap i.inet_ntoa (laws.addr_ntoa a h)
