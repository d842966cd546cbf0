-- ===== src/Buffer/Wire.antt =====
-- `Buffer::appendwithsep` at one end, `Buffer::pickmessage` at the other.
use reactor_server.Base.{
  ℕ, zero, suc, ◌≡◌, refl, ap, sym, ◌∙◌, List, [], ◌∷◌, ◌++◌, append_assoc, append-nil, length,
  length-append, take-append, Outcome, ok, ◌>>=◌, arith,
}
use reactor_server.Buffer.{Buffer, append, appendwithsep, append_framed, header, pickmessage}
use reactor_server.Buffer.Framing.{frame, framed, frames, AllFit, pick-frame}

-- Messages appended one after another, each from its memory as a C string.
pub written : List (List ℕ) → Buffer → Outcome Buffer
written [] b = ok b
written (m ∷ ms) b = do b' ← appendwithsep b (m ++ 0 ∷ []) (length m); written ms b'

-- So many calls of `pickmessage`.
pub picked : ℕ → Buffer → Outcome (List (List ℕ) × Buffer)
picked zero b = ok ([], b)
picked (suc n) b = do r ← pickmessage b []; (ms, b') ← picked n r.rest; ok (r.ss ∷ ms, b')

appendwithsep-framed :
    (m s : List ℕ) → appendwithsep (framed s) (m ++ 0 ∷ []) (length m) ≡ ok (framed (s ++ frame m))
unfolding appendwithsep append_framed append
appendwithsep-framed m s =
    ground (
      arith,
      append_assoc s (header (length m)) m,
      length-append m (0 ∷ []),
      take-append m (0 ∷ []),
    )

written-framed :
    (ms : List (List ℕ)) (s : List ℕ) → written ms (framed s) ≡ ok (framed (s ++ frames ms))
unfolding written
written-framed [] s = rw append-nil refl
written-framed (m ∷ ms) s = rw (appendwithsep-framed m s) (
    written-framed ms (s ++ frame m)
    ∙ ap (λ t. ok (framed t)) (append_assoc s (frame m) (frames ms)))

picked-frames :
    (ms : List (List ℕ)) (s : List ℕ)
    → AllFit ms
    → picked (length ms) (framed (frames ms ++ s)) ≡ ok (ms, framed s)
unfolding picked
picked-frames [] s fit = refl
picked-frames (m ∷ ms) s fit =
    rw
      (
        append_assoc (frame m) (frames ms) s,
        pick-frame m (frames ms ++ s) [] fit.0,
        picked-frames ms s fit.1,
      )
      refl

-- Messages appended with their headers, each shorter than 2^31 - 4 bytes, come out again in their
-- order, each whole, and nothing else is left in the buffer.
pub picked-written :
    (ms : List (List ℕ))
    → AllFit ms
    → (b : Buffer) × (written ms (framed []) ≡ ok b) × (picked (length ms) b ≡ ok (ms, framed []))
picked-written ms fit = (
  framed (frames ms),
  written-framed ms [],
  ap (λ t. picked (length ms) (framed t)) (sym (append-nil (frames ms))) ∙ picked-frames ms [] fit,
)
