-- ===== src/Base/Int.antt =====
-- Integers over the native numbers, under the library's names.
use Prim.Native.Nat.{ℕ, suc, ◌+◌, ◌-◌}
use reactor_server.Base.Tests.{ltb, if◌then◌else◌}

-- `negsuc n` is -1 - n.
pub data ℤ : Type 0 where
  pos negsuc : ℕ → ℤ

infixl 65 ◌+ℤ◌
abbrev pub ◌+ℤ◌ : ℤ → ℤ → ℤ
pos a +ℤ pos b = pos (a + b)
pos a +ℤ negsuc b = if ltb b a then pos (a - suc b) else negsuc (b - a)
negsuc a +ℤ pos b = if ltb a b then pos (b - suc a) else negsuc (a - b)
negsuc a +ℤ negsuc b = negsuc (suc (a + b))
