-- ===== src/Prelude/Words.antt =====
-- Unsigned 64-bit integers, and the hexadecimal digits of the standard library.
use Prim.Native.Nat.{ℕ, ◌+◌, ◌≤◌}
use mathlib.Core.Path.{◌≡◌}
use native.Mathlib.Omega.{arith}
use fieldnotes.Prelude.Tests.{ltb, if◌then◌else◌}

-- u64::MAX
abbrev pub u64_max : ℕ
u64_max = 18_446_744_073_709_551_615

-- u64::saturating_add
unfoldable pub saturating_add : ℕ → ℕ → ℕ
saturating_add a b = if ltb u64_max (a + b) then u64_max else a + b

pub le-saturating_add : (a b : ℕ) → a ≤ u64_max → a ≤ saturating_add a b
unfolding saturating_add
le-saturating_add a b h = ground arith

pub saturating_add-le : (a b : ℕ) → saturating_add a b ≤ a + b
unfolding saturating_add
saturating_add-le a b = ground arith

pub saturating_add_exact : (a b : ℕ) → a + b ≤ u64_max → saturating_add a b ≡ a + b
unfolding saturating_add
saturating_add_exact a b h = ground arith

-- char::from_digit(n, 16), for n below 16.
unfoldable pub from_digit : ℕ → ℕ
from_digit n = if ltb n 10 then b'0' + n else 87 + n
