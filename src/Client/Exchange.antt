-- ===== src/Client/Exchange.antt =====
-- What the client makes of the replies of a server.
use reactor_server.Base.{
  ℕ, suc, ◌-◌, ◌%◌, ◌^◌, ◌≤◌, ◌<◌, ◌≡◌, refl, ◌⊎◌, inl, inr, ap, sym, ◌∙◌, true, some, List, [],
  ◌∷◌, ◌++◌, append-nil, length, take, drop, take-all, drop-all, ok, fault, undefined, Outcome,
  ◌>>=◌, dec_lt, ℕ_discrete, arith, ◌==◌, if◌then◌else◌,
}
use reactor_server.Buffer.Header.{length-header, word-header, extend-small}
use reactor_server.Buffer.{header, word, extend}
use reactor_server.Client.{
  text, request, over, zeros, c_string, recv_buf, exchange, Peer, exchanges, done, main,
}
use reactor_server.Connection.Text.{NulFree}
use reactor_server.EchoServer.Defs.{work_prefix}
use reactor_server.InetAddress.{Inet, af_inet, htons}

-- What stands before the first NUL.
abbrev pub until_nul : List ℕ → List ℕ
until_nul [] = []
until_nul (b ∷ s) = if b == 0 then [] else b ∷ until_nul s

c_string-zeros : (s : List ℕ) (n : ℕ) → c_string (s ++ zeros (suc n)) ≡ ok (until_nul s)
unfolding c_string
c_string-zeros [] n = refl
c_string-zeros (b ∷ s) n = ground (arith, c_string-zeros s n)

c_string-cases :
    (s : List ℕ)
    → (NulFree s × (c_string s ≡ fault undefined))
      ⊎ ((NulFree s → ⊥) × (c_string s ≡ ok (until_nul s)))
unfolding c_string
c_string-cases [] = inl (tt, refl)
c_string-cases (b ∷ s) = elim (ℕ_discrete b 0) [
  | yes e ↦ inr (λ h. h.0 e, ground arith)
  | no ne ↦ elim (c_string-cases s) [
    | inl (free, e) ↦ inl ((ne, free), ground arith)
    | inr (nul, e) ↦ inr (λ h. nul h.1, ground arith)
  ]
]

until_nul-NulFree : (s : List ℕ) → NulFree s → until_nul s ≡ s
until_nul-NulFree [] h = refl
until_nul-NulFree (b ∷ s) h = ground (arith, until_nul-NulFree s h.1)

-- More than the buffer has room for, or as much, with no NUL to end the text.
abbrev pub Overflows : List ℕ → Type 0
Overflows c = (1024 < length c) ⊎ ((length c ≡ 1024) × NulFree c)

-- A header that came whole is the length that is asked for.
over-whole : (head old : List ℕ) → length head ≡ 4 → length old ≡ 4 → over (take 4 head) old ≡ head
over-whole head old h ho =
    rw (take-all 4 head (omega (arith, h)))
      (ap (◌++◌ head) (drop-all (length head) old (omega (arith, h, ho))) ∙ append-nil head)

module _ (ii w : ℕ) (head c : List ℕ) (whole : length head ≡ 4) (says : word head ≡ ok w)
    (fits : length c ≤ extend w) where
  exchange-fits :
      (buf : List ℕ) (o : Outcome (List ℕ))
      → recv_buf (extend w) c ≡ ok buf
      → c_string buf ≡ o
      → exchange ii head c ≡ (o >>= λ p. ok (request ii, p))
  unfolding exchange header
  exchange-fits buf o er eo =
      rw (over-whole head (header (length (text ii))) whole refl, says, er, eo) refl

  recv_buf-fits : length c ≤ 1024 → recv_buf (extend w) c ≡ ok (c ++ zeros (1024 - length c))
  unfolding recv_buf
  recv_buf-fits le = rw (take-all (extend w) c fits) (ground (arith, le))

  recv_buf-full : length c ≡ 1024 → recv_buf (extend w) c ≡ ok c
  recv_buf-full full =
      let none_left : 1024 - length c ≡ 0 = omega (arith, full) in
      recv_buf-fits (omega (arith, full))
      ∙ ap (λ n. ok (c ++ zeros n)) none_left
      ∙ ap ok (append-nil c)

  exchange-long : 1024 < length c → exchange ii head c ≡ fault undefined
  unfolding exchange header recv_buf
  exchange-long lt =
      rw (over-whole head (header (length (text ii))) whole refl, says, take-all (extend w) c fits)
        (ground (arith, lt))

  -- A header came whole, and a body of no more bytes than it says. Whatever length it says, and
  -- whatever was sent, the client writes or reads outside its buffer if the body is longer than
  -- 1024 bytes, or has as many and no NUL; else it has sent its request and prints the body up to
  -- its first NUL.
  pub exchange-cases :
      (Overflows c × (exchange ii head c ≡ fault undefined))
      ⊎ ((Overflows c → ⊥) × (exchange ii head c ≡ ok (request ii, until_nul c)))
  exchange-cases = elim (dec_lt 1024 (length c)) [
    | yes long ↦ inl (inl long, exchange-long long)
    | no short ↦ elim (ℕ_discrete (length c) 1024) [
      | yes full ↦ elim (c_string-cases c) [
        | inl (free, e) ↦
            inl (inr (full, free), exchange-fits c (fault undefined) (recv_buf-full full) e)
        | inr (nul, e) ↦ inr (
          λ h. elim h [ inl long ↦ short long | inr (same, free) ↦ nul free ],
          exchange-fits c (ok (until_nul c)) (recv_buf-full full) e,
        )
      ]
      | no room ↦
          let left : 1024 - length c ≡ suc (1023 - length c) = omega (arith, short, room) in
          inr (
            λ h. elim h [ inl long ↦ short long | inr (same, free) ↦ room same ],
            exchange-fits (c ++ zeros (suc (1023 - length c))) (ok (until_nul c))
                (recv_buf-fits (omega (arith, short)) ∙ ap (λ n. ok (c ++ zeros n)) left)
                (c_string-zeros c (1023 - length c)),
          )
    ]
  ]

-- A reply with a header of four bytes.
exchange-framed :
    (ii : ℕ) (m : List ℕ)
    → NulFree m
    → length m < 1024
    → exchange ii (header (length m)) m ≡ ok (request ii, m)
exchange-framed ii m free lt =
    elim (exchange-cases ii (length m) (header (length m)) m (length-header (length m))
      (ap word (sym (append-nil (header (length m))))
        ∙ word-header (length m) [] (omega (arith, lt)))
      (omega (arith, lt, extend-small (length m)))) [
        | inl (o, e) ↦ absurd (elim o [
          | inl long ↦ omega (arith, lt, long)
          | inr (full, h) ↦ omega (arith, lt, full)
        ])
        | inr (n, e) ↦ e ∙ ap (λ t. ok (request ii, t)) (until_nul-NulFree m free)
      ]

-- The client gets a socket and a connection to the address of its arguments, and the server answers
-- each request with a header of four bytes and a text of less than 1024 bytes without a NUL, which
-- the calls of `recv` find whole. Then the client sends its two requests, in their order, prints the
-- two texts, and ends as it should.
pub main-framed :
    (i : Inet) (atoi : List ℕ → ℕ) (peer : Peer) (prog ip port : List ℕ) (sockfd : ℕ)
    (reply : ℕ → List ℕ)
    → peer.socket ≡ some sockfd
    → peer.connects (record {
      sin_family = af_inet;
      sin_addr = i.inet_addr ip;
      sin_port = htons (atoi port % 2 ^ 16);
    })
      ≡ true
    → ((ii : ℕ) → peer.head ii ≡ header (length (reply ii)))
    → ((ii : ℕ) → peer.body ii ≡ reply ii)
    → ((ii : ℕ) → NulFree (reply ii))
    → ((ii : ℕ) → length (reply ii) < 1024)
    → main i atoi peer (prog ∷ ip ∷ port ∷ [])
      ≡ ok (done ((request 0, reply 0) ∷ (request 1, reply 1) ∷ []))
unfolding main exchanges
main-framed i atoi peer prog ip port sockfd reply es ec eh eb free lt =
    rw
      (
        es,
        ec,
        eh 0,
        eb 0,
        exchange-framed 0 (reply 0) (free 0) (lt 0),
        eh 1,
        eb 1,
        exchange-framed 1 (reply 1) (free 1) (lt 1),
      )
      refl

-- The client and an echo server with workers, whose reply to a message `m` is "WORK thread " and `m`,
-- without a header. The client takes "WORK" for a length of more than 2^30 bytes, and asks for as
-- many. If the rest of the reply has more than 1024 bytes, or as many and no NUL, it writes or reads
-- outside its buffer; else it prints " thread " and the message up to its first NUL.
pub exchange-of_echo :
    (ii : ℕ) (m : List ℕ)
    → length m < 2 ^ 30
    → let rest = drop 4 work_prefix ++ m in
      (Overflows rest × (exchange ii (take 4 work_prefix) rest ≡ fault undefined))
      ⊎ ((Overflows rest → ⊥)
          × (exchange ii (take 4 work_prefix) rest
              ≡ ok (request ii, drop 4 work_prefix ++ until_nul m)))
unfolding word
exchange-of_echo ii m lt =
    exchange-cases ii 1263685463 (take 4 work_prefix) (drop 4 work_prefix ++ m) refl refl
      (omega (arith, lt))
