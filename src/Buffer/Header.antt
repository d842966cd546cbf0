-- ===== src/Buffer/Header.antt =====
-- The four bytes of a message header, written and read back.
use reactor_server.Base.{ℕ, ◌+◌, ◌^◌, ◌<◌, ◌≡◌, refl, List, ◌++◌, length, arith, ok}
use reactor_server.Buffer.{header, word, len_plus, extend}

pub length-header : (n : ℕ) → length (header n) ≡ 4
unfolding header
length-header n = refl

pub word-header : (n : ℕ) (s : List ℕ) → n < 2 ^ 32 → word (header n ++ s) ≡ ok n
unfolding word header
word-header n s h = ground arith

-- A length that an `int` holds with room for the header.
pub len_plus-small : (n : ℕ) → n + 4 < 2 ^ 31 → len_plus n ≡ ok (n + 4)
unfolding len_plus
len_plus-small n h = ground arith

pub extend-small : (n : ℕ) → n + 4 < 2 ^ 31 → extend n ≡ n
extend-small n h = ground arith
