-- ===== src/Client.antt =====
-- client.cpp: the client that is built beside the server. The answers of the socket calls are arguments.
pub mod Exchange
mod Tests
use reactor_server.Base.{
  ℕ, zero, suc, ◌-◌, ◌/◌, ◌%◌, ◌^◌, ◌≡◌, Bool, Option, none, some, List, [], ◌∷◌, ◌++◌, length,
  take, drop, leb, ◌==◌, if◌then◌else◌, Outcome, ok, fault, undefined, guard, ◌>>=◌, ◌>>◌,
}
use reactor_server.Buffer.{header, word, extend}
use reactor_server.InetAddress.{SockaddrIn, Inet, af_inet, htons}
use reactor_server.Timestamp.Printf.{digits}

-- The text before the number, and the text behind it, in UTF-8.
abbrev before : List ℕ
before = 0xe8 ∷ 0xbf ∷ 0x99 ∷ 0xe6 ∷ 0x98 ∷ 0xaf ∷ 0xe7 ∷ 0xac ∷ 0xac ∷ []

abbrev behind : List ℕ
behind =
    0xe4 ∷ 0xb8 ∷ 0xaa ∷ 0xe8 ∷ 0xb6 ∷ 0x85 ∷ 0xe7 ∷ 0xba ∷ 0xa7 ∷ 0xe5 ∷ 0xa5 ∷ 0xb3 ∷ 0xe7 ∷ 0x94
    ∷ 0x9f ∷ 0xe3 ∷ 0x80 ∷ 0x82 ∷ []

-- `sprintf` with `%d`
unfoldable pub text : ℕ → List ℕ
text ii = before ++ (digits ii ++ behind)

-- What one round of the loop sends: `len` as the machine keeps an `int`, and the text.
unfoldable pub request : ℕ → List ℕ
unfolding text
request ii =
    let len = length (text ii) in
    (len % 256) ∷ (len / 256 % 256) ∷ (len / 65536 % 256) ∷ (len / 16777216 % 256) ∷ text ii

-- The first bytes of a memory block, written over.
abbrev pub over : List ℕ → List ℕ → List ℕ
over bytes block = bytes ++ drop (length bytes) block

abbrev pub zeros : ℕ → List ℕ
zeros zero = []
zeros (suc n) = 0 ∷ zeros n

-- `%s` prints up to the first NUL, and reads on until it finds one.
unfoldable pub c_string : List ℕ → Outcome (List ℕ)
c_string [] = fault undefined
c_string (b ∷ s) = let rest = c_string s in if b == 0 then ok [] else (do r ← rest; ok (b ∷ r))

-- `recv` of `n` bytes into `buf`, 1024 bytes that were set to 0. It gives what there is, `n` at most,
-- and nothing when it fails.
unfoldable pub recv_buf : ℕ → List ℕ → Outcome (List ℕ)
recv_buf n bytes = do
  guard (leb (length (take n bytes)) 1024) undefined
  ok (take n bytes ++ zeros (1024 - length (take n bytes)))

-- A round of the loop, with the bytes that the two calls of `recv` find: what it sends, and what it
-- prints. The second call gets `len` as the first one left it, converted to `size_t`.
unfoldable pub exchange : ℕ → List ℕ → List ℕ → Outcome (List ℕ × List ℕ)
unfolding request recv_buf c_string
exchange ii head body = do
  len ← word (over (take 4 head) (header (length (text ii))))
  buf ← recv_buf (extend len) body
  printed ← c_string buf
  ok (request ii, printed)

-- What the machine and the server answer to the client.
pub record Peer : Type 0 where
  pub socket : Option ℕ
  pub connects : SockaddrIn → Bool
  pub head : ℕ → List ℕ
  pub body : ℕ → List ℕ

-- The loop, from round `ii` on, with so many rounds left.
unfoldable pub exchanges : ℕ → ℕ → Peer → Outcome (List (List ℕ × List ℕ))
exchanges zero ii peer = ok []
exchanges (suc n) ii peer = do
  r ← exchange ii (peer.head ii) (peer.body ii)
  rs ← exchanges n (suc ii) peer
  ok (r ∷ rs)

-- How `main` ends: three times with -1, the last time with the socket closed, and else after the loop.
pub data Exit : Type 0 where
  usage no_socket : Exit
  refused : ℕ → Exit
  done : List (List ℕ × List ℕ) → Exit

-- `atoi` and `inet_addr` are the C library's.
unfoldable pub main : Inet → (List ℕ → ℕ) → Peer → List (List ℕ) → Outcome Exit
unfolding exchanges
main i atoi peer (prog ∷ ip ∷ port ∷ []) = elim peer.socket [
  | none ↦ ok no_socket
  | some sockfd ↦
      if peer.connects (record {
        sin_family = af_inet;
        sin_addr = i.inet_addr ip;
        sin_port = htons (atoi port % 2 ^ 16);
      })
      then (do rs ← exchanges 2 0 peer; ok (done rs))
      else ok (refused sockfd)
]
main i atoi peer argv = ok usage
