-- ===== src/Buffer.antt =====
-- Buffer.h and Buffer.cpp. A byte is a number below 256, and a `size_t` has 64 bits.
pub mod Header
pub mod Framing
pub mod Wire
pub mod Lengths
mod Tests
use reactor_server.Base.{
  ℕ, ◌+◌, ◌-◌, ◌*◌, ◌/◌, ◌%◌, ◌^◌, ◌≡◌, Bool, true, false, List, [], ◌∷◌, ◌++◌, length, take, drop,
  ltb, leb, ◌==◌, ◌||◌, if◌then◌else◌, Outcome, ok, fault, out_of_range, undefined, guard, ◌>>=◌,
  ◌>>◌,
}

-- The class: `buf_`, and the kind of message header, `sep_`.
pub record Buffer : Type 0 where
  pub buf : List ℕ
  pub sep : ℕ

unfoldable pub create : ℕ → Buffer
create sep = record { buf = []; sep = sep }

-- `std::string::append(data, size)` reads `size` bytes from the memory block at `data`.
unfoldable pub append : Buffer → List ℕ → ℕ → Outcome Buffer
append b data_ size_ = do
  guard (leb size_ (length data_)) undefined
  ok (record b { buf = b.buf ++ take size_ data_ })

-- The first four bytes of a `size_t` in memory, lowest first.
unfoldable pub header : ℕ → List ℕ
header n = (n % 256) ∷ (n / 256 % 256) ∷ (n / 65536 % 256) ∷ (n / 16777216 % 256) ∷ []

-- `buf_.append((char*)&size, 4); buf_.append(data, size);`
unfoldable pub append_framed : Buffer → List ℕ → ℕ → Outcome Buffer
unfolding append header
append_framed b data_ size_ = append (record b { buf = b.buf ++ header size_ }) data_ size_

unfoldable pub appendwithsep : Buffer → List ℕ → ℕ → Outcome Buffer
unfolding append append_framed
appendwithsep b data_ size_ =
    if b.sep == 0
    then append b data_ size_
    else if b.sep == 1
    then append_framed b data_ size_
    else if b.sep == 2
    then append_framed b data_ size_
    else ok b

-- `std::string::erase` throws if `pos` is past the end.
unfoldable pub erase : Buffer → ℕ → ℕ → Outcome Buffer
erase b pos nn = do
  guard (leb pos (length b.buf)) out_of_range
  ok (record b { buf = take pos b.buf ++ drop (pos + nn) b.buf })

unfoldable pub size : Buffer → ℕ
size b = length b.buf

unfoldable pub clear : Buffer → Buffer
clear b = record b { buf = [] }

-- `std::string::substr(pos, n)`
unfoldable pub substr : List ℕ → ℕ → ℕ → Outcome (List ℕ)
substr s pos n = do guard (leb pos (length s)) out_of_range; ok (take n (drop pos s))

-- What a call of `pickmessage` leaves behind: its answer, the string `ss` and the buffer.
pub record Picked : Type 0 where
  pub found : Bool
  pub ss : List ℕ
  pub rest : Buffer

-- `memcpy(&len, buf_.data(), 4)`: `len` as a bit pattern. The terminator behind the last byte may be
-- read, and nothing behind that.
unfoldable pub word : List ℕ → Outcome ℕ
word (a ∷ b ∷ c ∷ d ∷ s) = ok (a + 256 * b + 65536 * c + 16777216 * d)
word (a ∷ b ∷ c ∷ []) = ok (a + 256 * b + 65536 * c)
word s = fault undefined

-- An `int` converted to `size_t`.
abbrev pub extend : ℕ → ℕ
extend w = if ltb w (2 ^ 31) then w else w + (2 ^ 64 - 2 ^ 32)

-- `len+4` on `int` has no meaning where it overflows; then it is compared as a `size_t`.
unfoldable pub len_plus : ℕ → Outcome ℕ
len_plus w = do guard (ltb w (2 ^ 31 - 4) || leb (2 ^ 31) w) undefined; ok ((extend w + 4) % 2 ^ 64)

-- `pickmessage` with a header of four bytes.
unfoldable pub pick_framed : Buffer → List ℕ → Outcome Picked
unfolding erase size substr
pick_framed b ss = do
  w ← word b.buf
  need ← len_plus w
  if ltb (size b) need then ok (record { found = false; ss = ss; rest = b }) else do
    m ← substr b.buf 4 (extend w)
    b' ← erase b 0 need
    ok (record { found = true; ss = m; rest = b' })

-- `pickmessage` with no header.
unfoldable pub pick_all : Buffer → Outcome Picked
unfolding erase size substr
pick_all b = do
  m ← substr b.buf 0 (size b)
  b' ← erase b 0 (size b)
  ok (record { found = true; ss = m; rest = b' })

unfoldable pub pickmessage : Buffer → List ℕ → Outcome Picked
unfolding size
pickmessage b ss =
    if size b == 0
    then ok (record { found = false; ss = ss; rest = b })
    else if b.sep == 0
    then pick_all b
    else if b.sep == 1
    then pick_framed b ss
    else ok (record { found = true; ss = ss; rest = b })
