-- ===== src/Prelude/Int.antt =====
-- Python's integers, over the native numbers.
use Prim.Native.Nat.{ℕ, suc, ◌+◌, ◌-◌, ◌*◌, ◌/◌, ◌%◌}
use mathlib.Core.Path.{◌≡◌}
use native.Mathlib.Omega.{arith}
use jake_ai.Prelude.Tests.{leb, ltb, if◌then◌else◌}

-- `negsuc n` is -(n + 1)
pub data ℤ : Type 0 where
  pos : ℕ → ℤ
  negsuc : ℕ → ℤ

abbrev pub pos_part : ℤ → ℕ
pos_part (pos n) = n
pos_part (negsuc _) = 0

abbrev pub neg_part : ℤ → ℕ
neg_part (pos _) = 0
neg_part (negsuc n) = suc n

-- a - b, as an integer
abbrev pub sub_ℕ : ℕ → ℕ → ℤ
sub_ℕ a b = if leb b a then pos (a - b) else negsuc (b - a - 1)

-- max(0, n + d)
abbrev pub add_floor : ℕ → ℤ → ℕ
add_floor n d = n + pos_part d - neg_part d

pub add_floor-sub_ℕ : (n a b : ℕ) → add_floor n (sub_ℕ a b) ≡ n + a - b
add_floor-sub_ℕ n a b = ground arith

-- `round` of a quotient: a half goes to the even neighbour
abbrev pub round_ratio : ℕ → ℕ → ℕ
round_ratio n d =
    let q = n / d in
    let r = n % d in if ltb (2 * r) d then q else (if ltb d (2 * r) then q + 1 else q + q % 2)
