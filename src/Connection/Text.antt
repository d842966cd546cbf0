-- ===== src/Connection/Text.antt =====
-- `send` copies its data as a C string. A message of text arrives whole; of a message with a NUL byte
-- inside more is read than was copied.
use reactor_server.Base.{
  ℕ, ◌<◌, ◌≡◌, ◌≢◌, refl, true, false, List, [], ◌∷◌, ◌++◌, append_assoc, length, length-append, ok,
  fault, undefined, if◌then◌else◌, arith,
}
use reactor_server.Buffer.{append}
use reactor_server.Connection.Defs.{strdup, sendinloop, send}
use reactor_server.Epoll.Kernel.{Kernel}
use reactor_server.EventLoop.Defs.{isinloopthread, queueinloop}
use reactor_server.World.{World, put_loop}

abbrev pub NulFree : List ℕ → Type 0
NulFree [] = Unit
NulFree (b ∷ s) = (b ≢ 0) × NulFree s

-- A `std::string` in memory, as `data()` points to it.
abbrev pub c_str : List ℕ → List ℕ
c_str m = m ++ 0 ∷ []

pub strdup-NulFree : (m s : List ℕ) → NulFree m → strdup (m ++ 0 ∷ s) ≡ ok (c_str m)
unfolding strdup
strdup-NulFree [] s h = refl
strdup-NulFree (b ∷ m) s h = ground (arith, strdup-NulFree m s h.1)

module _ {k : Kernel} {S : Type 0} where
  -- A message without a NUL byte, sent by whatever thread to an open connection: the loop's own
  -- thread queues all of it for output at once, any other leaves a task that will.
  pub send-NulFree :
      (thread p : ℕ) (m : List ℕ) (w : World k S)
      → NulFree m
      → (w.objs p).disconnect ≡ false
      → send thread p (c_str m) (length m) w ≡ (
          if isinloopthread thread (w.loops (w.objs p).loop)
          then sendinloop p (c_str m) (length m) w
          else ok (
              put_loop
                (w.objs p).loop
                (queueinloop
                  (record { target = p; block = c_str m; size = length m })
                  (w.loops (w.objs p).loop))
                w))
  unfolding send
  send-NulFree thread p m w h open_ = rw (open_, strdup-NulFree m [] h)

  pub sendinloop-short :
      (p : ℕ) (block : List ℕ) (n : ℕ) (w : World k S)
      → length block < n
      → sendinloop p block n w ≡ fault undefined
  unfolding sendinloop append
  sendinloop-short p block n w h = ground arith

  -- A message with a NUL byte that is not its last, sent by the loop's own thread to an open
  -- connection: the copy ends at that byte, and what lies behind the copy is read.
  pub send-nul :
      (thread p : ℕ) (u v : List ℕ) (w : World k S)
      → NulFree u
      → 0 < length v
      → (w.objs p).disconnect ≡ false
      → isinloopthread thread (w.loops (w.objs p).loop) ≡ true
      → send thread p (c_str (u ++ 0 ∷ v)) (length (u ++ 0 ∷ v)) w ≡ fault undefined
  unfolding send
  send-nul thread p u v w h more open_ own =
      rw (open_, own, append_assoc u (0 ∷ v) (0 ∷ []), strdup-NulFree u (v ++ 0 ∷ []) h)
        (sendinloop-short p (c_str u) (length (u ++ 0 ∷ v)) w
          (omega (arith, length-append u (0 ∷ v), length-append u (0 ∷ []))))

  -- From any other thread the call returns, and leaves a task that asks for more than its copy has.
  pub send-nul_other :
      (thread p : ℕ) (u v : List ℕ) (w : World k S)
      → NulFree u
      → (w.objs p).disconnect ≡ false
      → isinloopthread thread (w.loops (w.objs p).loop) ≡ false
      → send thread p (c_str (u ++ 0 ∷ v)) (length (u ++ 0 ∷ v)) w
        ≡ ok (
            put_loop
              (w.objs p).loop
              (queueinloop
                (record { target = p; block = c_str u; size = length (u ++ 0 ∷ v) })
                (w.loops (w.objs p).loop))
              w)
  unfolding send
  send-nul_other thread p u v w h open_ other =
      rw (open_, other, append_assoc u (0 ∷ v) (0 ∷ []), strdup-NulFree u (v ++ 0 ∷ []) h) refl
