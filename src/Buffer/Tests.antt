-- ===== src/Buffer/Tests.antt =====
-- Messages with a header, at small examples.
use reactor_server.Base.{
  ◌⊎◌, ◌<◌, ◌≤◌, false, fault, undefined, ℕ, ◌≡◌, refl, true, List, [], ◌∷◌, ok, arith,
}
use reactor_server.Buffer.{Buffer, header, word, pickmessage}
use reactor_server.Buffer.Lengths.{pickmessage-by_length}
use reactor_server.Buffer.Wire.{written, picked, picked-written}
use reactor_server.Buffer.Framing.{framed, pick-partial}

abbrev hello : List ℕ
hello = b'h' ∷ b'i' ∷ []

-- The header and the first byte of the two.
abbrev part : List ℕ
part = 2 ∷ 0 ∷ 0 ∷ 0 ∷ b'h' ∷ []

-- Three of the six bytes of a message.
pick-partial_example :
    ((0 < 3) × (3 < 3) × (pickmessage (framed (2 ∷ 0 ∷ 0 ∷ [])) [] ≡ fault undefined))
    ⊎ ((◌≡◌ {A = ℕ} 3 0 ⊎ (3 ≤ 3))
        × (pickmessage (framed (2 ∷ 0 ∷ 0 ∷ [])) []
            ≡ ok (record { found = false; ss = []; rest = framed (2 ∷ 0 ∷ 0 ∷ []) })))
unfolding header
pick-partial_example =
    pick-partial (2 ∷ 0 ∷ 0 ∷ []) (0 ∷ hello) hello [] refl (omega arith) (omega arith)

picked-written_example :
    (b : Buffer) × (written (hello ∷ [] ∷ part ∷ []) (framed []) ≡ ok b)
    × (picked 3 b ≡ ok (hello ∷ [] ∷ part ∷ [], framed []))
picked-written_example =
    picked-written (hello ∷ [] ∷ part ∷ []) (omega arith, (omega arith, (omega arith, tt)))

-- The header of -2.
abbrev minus_two : List ℕ
minus_two = 254 ∷ 255 ∷ 255 ∷ 255 ∷ b'h' ∷ []

minus_two-word : word minus_two ≡ ok 4294967294
unfolding word
minus_two-word = refl

pickmessage-by_length_example :
    pickmessage (framed minus_two) []
    ≡ ok (record { found = true; ss = b'h' ∷ []; rest = framed (255 ∷ 255 ∷ b'h' ∷ []) })
pickmessage-by_length_example =
    pickmessage-by_length minus_two [] 4294967294 (omega arith) (omega arith) minus_two-word
      (omega arith)
