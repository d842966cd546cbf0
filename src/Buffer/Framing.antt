-- ===== src/Buffer/Framing.antt =====
-- A framed message, once whole in the buffer, is picked out again; before that the buffer waits.
use reactor_server.Base.{
  ◌⊎◌, inl, inr, ℕ, suc, ◌+◌, ◌^◌, ◌<◌, ◌≤◌, ◌≡◌, undefined, refl, ap, ◌∙◌, sym, true, false, List,
  [], ◌∷◌, ◌++◌, append_assoc, length, take, drop, take-append, drop-append, length-append, arith,
  ok, fault,
}
use reactor_server.Buffer.{Buffer, header, pick_framed, pickmessage, word, len_plus, extend}
use reactor_server.Buffer.Header.{word-header, len_plus-small, extend-small}

-- One framed message in memory.
abbrev pub frame : List ℕ → List ℕ
frame m = header (length m) ++ m

abbrev pub framed : List ℕ → Buffer
framed s = record { buf = s; sep = 1 }

pub length-frame : (m s : List ℕ) → length (frame m ++ s) ≡ length m + 4 + length s
unfolding header
length-frame m s = omega (arith, length-append m s)

pub length-frame_alone : (m : List ℕ) → length (frame m) ≡ length m + 4
unfolding header
length-frame_alone m = omega arith

drop-header : (n : ℕ) (s : List ℕ) → drop 4 (header n ++ s) ≡ s
unfolding header
drop-header n s = refl

drop-frame : (m s : List ℕ) → drop (length m + 4) (frame m ++ s) ≡ s
unfolding header
drop-frame m s =
    let e : length m + 4 ≡ suc (suc (suc (suc (length m)))) = omega arith in rw e (drop-append m s)

-- A header that asks for no more than the buffer holds.
pub pick_framed-whole :
    (b : Buffer) (ss : List ℕ) (w need : ℕ)
    → word b.buf ≡ ok w
    → len_plus w ≡ ok need
    → need ≤ length b.buf
    → 4 ≤ length b.buf
    → pick_framed b ss
      ≡ ok (record {
        found = true;
        ss = take (extend w) (drop 4 b.buf);
        rest = record b { buf = drop need b.buf };
      })
unfolding pick_framed
pick_framed-whole b ss w need hw hn h h4 = ground arith

-- A header that asks for more.
pub pick_framed-short :
    (b : Buffer) (ss : List ℕ) (w need : ℕ)
    → word b.buf ≡ ok w
    → len_plus w ≡ ok need
    → length b.buf < need
    → pick_framed b ss ≡ ok (record { found = false; ss = ss; rest = b })
unfolding pick_framed
pick_framed-short b ss w need hw hn h = ground arith

-- With a header of four bytes, a buffer that holds anything is read by its header.
pub pickmessage-framed :
    (s ss : List ℕ) → 0 < length s → pickmessage (framed s) ss ≡ pick_framed (framed s) ss
unfolding pickmessage
pickmessage-framed s ss h = ground arith

-- A message shorter than 2^31 - 4 bytes that stands whole at the front of a buffer with headers of
-- four bytes is picked, and what follows it is left.
pub pick-frame :
    (m s ss : List ℕ)
    → length m + 4 < 2 ^ 31
    → pickmessage (framed (frame m ++ s)) ss ≡ ok (record { found = true; ss = m; rest = framed s })
pick-frame m s ss h =
    pickmessage-framed (frame m ++ s) ss (omega (arith, length-frame m s))
    ∙ pick_framed-whole (framed (frame m ++ s)) ss (length m) (length m + 4)
        (rw append_assoc (word-header (length m) (m ++ s) (omega arith)))
        (len_plus-small (length m) h) (omega (arith, length-frame m s))
        (omega (arith, length-frame m s))
    ∙ rw (extend-small (length m) h, drop-frame m s, append_assoc, drop-header, take-append m s)

word-append : (p q : List ℕ) → 4 ≤ length p → word (p ++ q) ≡ word p
unfolding word
word-append [] q h = absurd (omega arith)
word-append (a ∷ []) q h = absurd (omega arith)
word-append (a ∷ b ∷ []) q h = absurd (omega arith)
word-append (a ∷ b ∷ c ∷ []) q h = absurd (omega arith)
word-append (a ∷ b ∷ c ∷ d ∷ p) q h = refl

-- A message of which the header is there, and not all of the rest.
pick_framed-partial :
    (p q m ss : List ℕ)
    → p ++ q ≡ frame m
    → length m + 4 < 2 ^ 31
    → 0 < length q
    → 4 ≤ length p
    → pick_framed (framed p) ss ≡ ok (record { found = false; ss = ss; rest = framed p })
pick_framed-partial p q m ss e h hq hp =
    pick_framed-short (framed p) ss (length m) (length m + 4)
      (sym (word-append p q hp) ∙ rw e (word-header (length m) m (omega arith)))
      (len_plus-small (length m) h)
      (omega (arith, ap length e, length-append p q, length-frame_alone m))

-- Three bytes of a header: the string's terminator stands for the fourth.
pick_framed-three :
    (a b c : ℕ) (q m ss : List ℕ)
    → a ∷ b ∷ c ∷ q ≡ frame m
    → pick_framed (framed (a ∷ b ∷ c ∷ [])) ss
      ≡ ok (record { found = false; ss = ss; rest = framed (a ∷ b ∷ c ∷ []) })
unfolding pick_framed header word len_plus
pick_framed-three a b c q m ss e = ground arith

-- While a message shorter than 2^31 - 4 bytes is not whole in a buffer with headers of four bytes,
-- however much of it has come, `pickmessage` finds none and keeps what there is; but if what has come
-- is one or two bytes of the header, it reads past the string.
pub pick-partial :
    (p q m ss : List ℕ)
    → p ++ q ≡ frame m
    → length m + 4 < 2 ^ 31
    → 0 < length q
    → ((0 < length p) × (length p < 3) × (pickmessage (framed p) ss ≡ fault undefined))
      ⊎ (((length p ≡ 0) ⊎ (3 ≤ length p))
          × (pickmessage (framed p) ss ≡ ok (record { found = false; ss = ss; rest = framed p })))
unfolding pickmessage pick_framed word
pick-partial [] q m ss e h hq = inr (inl refl, refl)
pick-partial (a ∷ []) q m ss e h hq = inl (omega arith, omega arith, refl)
pick-partial (a ∷ b ∷ []) q m ss e h hq = inl (omega arith, omega arith, refl)
pick-partial (a ∷ b ∷ c ∷ []) q m ss e h hq = inr (
  inr (omega arith),
  pickmessage-framed (a ∷ b ∷ c ∷ []) ss (omega arith) ∙ pick_framed-three a b c q m ss e,
)
pick-partial (a ∷ b ∷ c ∷ d ∷ p) q m ss e h hq = inr (
  inr (omega arith),
  pickmessage-framed (a ∷ b ∷ c ∷ d ∷ p) ss (omega arith)
      ∙ pick_framed-partial (a ∷ b ∷ c ∷ d ∷ p) q m ss e h hq (omega arith),
)

-- Messages as they come over the wire.
abbrev pub frames : List (List ℕ) → List ℕ
frames [] = []
frames (m ∷ ms) = frame m ++ frames ms

-- Every message has a length that its header can hold.
abbrev pub AllFit : List (List ℕ) → Type 0
AllFit [] = Unit
AllFit (m ∷ ms) = (length m + 4 < 2 ^ 31) × AllFit ms
