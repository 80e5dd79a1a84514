-- ===== src/Base/Words.antt =====
-- A C `int` is its 32-bit pattern, a number below 2 ^ 32: `-k` is `neg k`, and a pattern from
-- 2 ^ 31 on is negative.
use Prim.Native.Nat.{ℕ, ◌+◌, ◌-◌, ◌*◌, ◌/◌, ◌%◌, ◌<◌}
use mathlib.Core.Path.{◌≡◌}
use mathlib.Core.Bool.{Bool, ◌||◌}
use mathlib.Core.List.{List, [], ◌∷◌}
use native.Mathlib.Omega.{arith}
use psvemmc.Base.Tests.{leb, ◌==◌}

abbrev pub word : ℕ
word = 4294967296

-- The constant `-k`, for a small k.
abbrev pub neg : ℕ → ℕ
neg k = word - k

-- The test `w < 0`.
abbrev pub is_neg : ℕ → Bool
is_neg w = leb 2147483648 w

-- The test `w <= 0`.
abbrev pub not_pos : ℕ → Bool
not_pos w = is_neg w || w == 0

-- `a * b`, `a + b` and `a - b` wrap around.
abbrev pub mul32 : ℕ → ℕ → ℕ
mul32 a b = a * b % word

abbrev pub add32 : ℕ → ℕ → ℕ
add32 a b = (a + b) % word

abbrev pub sub32 : ℕ → ℕ → ℕ
sub32 a b = (a + word - b) % word

-- An `int` in memory: four bytes, the lowest first.
abbrev pub le32 : ℕ → List ℕ
le32 w = w % 256 ∷ w / 256 % 256 ∷ w / 65536 % 256 ∷ w / 16777216 % 256 ∷ []

-- The number that a list of bytes holds, the lowest first.
abbrev pub of_bytes : List ℕ → ℕ
of_bytes [] = 0
of_bytes (b ∷ bs) = b + 256 * of_bytes bs

pub of_bytes-le32 : (w : ℕ) → w < word → of_bytes (le32 w) ≡ w
of_bytes-le32 w h = omega arith
