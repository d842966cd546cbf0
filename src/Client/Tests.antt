-- ===== src/Client/Tests.antt =====
-- The client, with a server that frames its replies and with one that does not.
use reactor_server.Base.{
  ℕ, ◌≡◌, ◌⊎◌, refl, true, some, List, [], ◌∷◌, ◌++◌, length, take, drop, ok, fault, undefined,
  arith,
}
use reactor_server.Buffer.{header}
use reactor_server.Client.{request, exchange, Peer, done, main}
use reactor_server.Client.Exchange.{until_nul, Overflows, main-framed, exchange-of_echo}
use reactor_server.EchoServer.Defs.{work_prefix}
use reactor_server.Socket.Table.{numbers}

-- "ok"
abbrev answer : List ℕ
answer = b'o' ∷ b'k' ∷ []

abbrev framing : Peer
framing = record {
  socket = some 3;
  connects = λ a. true;
  head = λ ii. header (length answer);
  body = λ ii. answer;
}

main-framed_example :
    main numbers (λ s. 5050) framing ([] ∷ [] ∷ [] ∷ [])
    ≡ ok (done ((request 0, answer) ∷ (request 1, answer) ∷ []))
main-framed_example =
    main-framed numbers (λ s. 5050) framing [] [] [] 3 (λ ii. answer) refl refl (λ ii. refl)
      (λ ii. refl) (λ ii. ((λ h. omega (arith, h)), ((λ h. omega (arith, h)), tt)))
      (λ ii. omega arith)

exchange-of_echo_example :
    let rest = drop 4 work_prefix ++ answer in
    (Overflows rest × (exchange 0 (take 4 work_prefix) rest ≡ fault undefined))
    ⊎ ((Overflows rest → ⊥)
        × (exchange 0 (take 4 work_prefix) rest
            ≡ ok (request 0, drop 4 work_prefix ++ until_nul answer)))
exchange-of_echo_example = exchange-of_echo 0 answer (omega arith)
