-- ===== src/Buffer/Lengths.antt =====
-- `Buffer::pickmessage` at every value of a header of four bytes, which it reads as an `int`.
use reactor_server.Base.{
  ℕ, ◌+◌, ◌-◌, ◌≤◌, ◌<◌, ◌^◌, ◌≡◌, refl, ◌∙◌, true, false, List, length, length-drop, take,
  take-all, drop, ltb, if◌then◌else◌, Outcome, ok, fault, undefined, arith, dec_lt,
}
use reactor_server.Buffer.{Picked, word, extend, len_plus, pick_framed, pickmessage}
use reactor_server.Buffer.Framing.{framed, pick_framed-whole, pick_framed-short, pickmessage-framed}
use reactor_server.Buffer.Header.{len_plus-small, extend-small}

-- What becomes of a buffer that holds `s`, with the bits `w` of a header in front.
abbrev pub by_length : ℕ → List ℕ → List ℕ → Outcome Picked
by_length w s ss =
    if ltb w (2 ^ 31 - 4)
    then if ltb (length s) (w + 4)
      then ok (record { found = false; ss = ss; rest = framed s })
      else ok (record { found = true; ss = take w (drop 4 s); rest = framed (drop (w + 4) s) })
    else if ltb w (2 ^ 31)
    then fault undefined
    else if ltb w (2 ^ 32 - 4)
    then ok (record { found = false; ss = ss; rest = framed s })
    else ok (record { found = true; ss = drop 4 s; rest = framed (drop (w + 4 - 2 ^ 32) s) })

ltb-below : (m n : ℕ) → m < n → ltb m n ≡ true
ltb-below m n h = ground arith

ltb-above : (m n : ℕ) → n ≤ m → ltb m n ≡ false
ltb-above m n h = ground arith

len_plus-overflow : (w : ℕ) → 2 ^ 31 - 4 ≤ w → w < 2 ^ 31 → len_plus w ≡ fault undefined
unfolding len_plus
len_plus-overflow w h h' = ground arith

len_plus-negative :
    (w : ℕ) → 2 ^ 31 ≤ w → w < 2 ^ 32 - 4 → len_plus w ≡ ok (w + (2 ^ 64 - 2 ^ 32) + 4)
unfolding len_plus
len_plus-negative w h h' = ground arith

len_plus-wrapped : (w : ℕ) → 2 ^ 32 - 4 ≤ w → w < 2 ^ 32 → len_plus w ≡ ok (w + 4 - 2 ^ 32)
unfolding len_plus
len_plus-wrapped w h h' = ground arith

extend-negative : (w : ℕ) → 2 ^ 31 ≤ w → extend w ≡ w + (2 ^ 64 - 2 ^ 32)
extend-negative w h = ground arith

pick_framed-overflow :
    (s ss : List ℕ) (w : ℕ)
    → word s ≡ ok w
    → len_plus w ≡ fault undefined
    → pick_framed (framed s) ss ≡ fault undefined
unfolding pick_framed
pick_framed-overflow s ss w hw hn = rw (hw, hn) refl

module _ (s ss : List ℕ) (w : ℕ) (four : 4 ≤ length s) (fits : length s < 2 ^ 63)
    (hw : word s ≡ ok w) where
  small : w < 2 ^ 31 - 4 → pick_framed (framed s) ss ≡ by_length w s ss
  small h = elim (dec_lt (length s) (w + 4)) [
    | yes short ↦
        rw (ltb-below w (2 ^ 31 - 4) h, ltb-below (length s) (w + 4) short)
          (pick_framed-short (framed s) ss w (w + 4) hw (len_plus-small w (omega arith)) short)
    | no whole ↦
        rw (ltb-below w (2 ^ 31 - 4) h, ltb-above (length s) (w + 4) (omega arith))
          (pick_framed-whole (framed s) ss w (w + 4) hw (len_plus-small w (omega arith))
              (omega arith) four
            ∙ rw (extend-small w (omega arith)) refl)
  ]

  wrapped : 2 ^ 32 - 4 ≤ w → w < 2 ^ 32 → pick_framed (framed s) ss ≡ by_length w s ss
  wrapped h h' =
      rw
        (
          ltb-above w (2 ^ 31 - 4) (omega arith),
          ltb-above w (2 ^ 31) (omega arith),
          ltb-above w (2 ^ 32 - 4) h,
        )
        (pick_framed-whole (framed s) ss w (w + 4 - 2 ^ 32) hw (len_plus-wrapped w h h')
            (omega arith) four
          ∙ rw
              (
                extend-negative w (omega arith),
                take-all (w + (2 ^ 64 - 2 ^ 32)) (drop 4 s) (omega (arith, length-drop 4 s)),
              )
              refl)

  -- A buffer with headers of four bytes, and not fewer in it. By the header's value as an `int`: a
  -- length that is not negative is waited for and taken; one of the largest four overflows; a length
  -- below -4 is waited for for ever; and of -4 to -1 all but the header is given as a message, and
  -- only the first 0 to 3 bytes are taken.
  pub pickmessage-by_length : w < 2 ^ 32 → pickmessage (framed s) ss ≡ by_length w s ss
  pickmessage-by_length lt = pickmessage-framed s ss (omega arith) ∙ elim (dec_lt w (2 ^ 31 - 4)) [
    | yes h ↦ small h
    | no h ↦ elim (dec_lt w (2 ^ 31)) [
      | yes h' ↦
          rw (ltb-above w (2 ^ 31 - 4) (omega arith), ltb-below w (2 ^ 31) h')
            (pick_framed-overflow s ss w hw (len_plus-overflow w (omega arith) h'))
      | no h' ↦ elim (dec_lt w (2 ^ 32 - 4)) [
        | yes h'' ↦
            rw
              (
                ltb-above w (2 ^ 31 - 4) (omega arith),
                ltb-above w (2 ^ 31) (omega arith),
                ltb-below w (2 ^ 32 - 4) h'',
              )
              (pick_framed-short (framed s) ss w (w + (2 ^ 64 - 2 ^ 32) + 4) hw
                (len_plus-negative w (omega arith) h'') (omega arith))
        | no h'' ↦ wrapped (omega arith) lt
      ]
    ]
  ]
