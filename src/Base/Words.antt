-- ===== src/Base/Words.antt =====
-- Machine words. A `u64` is its value. An `i64` is its distance from `i64::MIN`, so that the order,
-- `abs_diff` and the additions of non-negative amounts are those of the numbers below `2 ^ 64`.
use Prim.Native.Nat.{ℕ, ◌+◌, ◌-◌, ◌^◌, min}
use mathlib.Core.Path.{◌≡◌}
use native.Mathlib.Omega.{arith}
use mathlib.Core.Option.{Option, none, some}
use agent_scale.Base.Tests.{leb, if◌then◌else◌}

abbrev pub word_max : ℕ
word_max = 2 ^ 64 - 1

-- The Unix epoch: the `i64` zero.
abbrev pub epoch : ℕ
epoch = 2 ^ 63

abbrev pub saturating_add : ℕ → ℕ → ℕ
saturating_add a b = min (a + b) word_max

abbrev pub checked_add : ℕ → ℕ → Option ℕ
checked_add a b = if leb (a + b) word_max then some (a + b) else none

abbrev pub abs_diff : ℕ → ℕ → ℕ
abs_diff a b = (a - b) + (b - a)

pub checked_add-eq : (a b : ℕ) {c : ℕ} → checked_add a b ≡ some c → c ≡ a + b
checked_add-eq a b h = ground arith
