-- ===== src/Prelude/Double.antt =====
-- Doubles. Every finite double is a whole multiple of 2^-1074, the least positive one: a double is
-- kept as that integer, so comparisons, literals and signs are exact. Products and quotients are
-- parameters, since they round, and so are sums and differences where a theorem depends on that.
use collections.Prelude.Int.{ℤ, pos, ◌≤ℤ◌, ◌+ℤ◌, ◌-ℤ◌, neg_ℤ, ltb_ℤ}
use mathlib.Core.Path.{◌≡◌}
use collections.Prelude.Tests.{if◌then◌else◌}
use Prim.Native.Nat.{ℕ, ◌*◌, ◌^◌}
use Prim.Native.String.{String}
use native.Mathlib.Omega.{arith}

-- The double of a whole number.
unfoldable pub whole : ℕ → ℤ
whole n = pos (n * 2 ^ 1074)

-- The literal 1e-9, rounded to nearest: 4835703278458517 * 2^-82.
unfoldable pub epsilon : ℤ
epsilon = pos (4835703278458517 * 2 ^ 992)

pub epsilon-pos : pos 1 ≤ℤ epsilon
unfolding epsilon
epsilon-pos = omega arith

-- `std::fabs`.
unfoldable pub fabs : ℤ → ℤ
fabs a = if ltb_ℤ a (pos 0) then neg_ℤ a else a

-- The rounded operations of the processor.
pub record Fpu : Type 0 where
  pub mul : ℤ → ℤ → ℤ
  pub div : ℤ → ℤ → ℤ

-- How an output stream prints a double and a size.
pub record Ostream : Type 0 where
  pub print_double : ℤ → String
  pub print_size : ℕ → String

-- Sums and differences as the processor rounds them.
pub record Sums : Type 0 where
  pub add : ℤ → ℤ → ℤ
  pub sub : ℤ → ℤ → ℤ

abbrev pub exact : Sums
exact = record { add = λ a b. a +ℤ b; sub = λ a b. a -ℤ b }

-- On some amounts, such as the multiples of a unit up to 2^53 of them, sums and differences between
-- zero and a greatest amount are not rounded, and are such amounts again.
pub record IsExactOn (sums : Sums) (IsAmount : ℤ → Type 0) (top : ℤ) : Type 0 where
  pub zero_ok : IsAmount (pos 0)
  pub add_ok :
      (a b : ℤ)
      → IsAmount a
      → IsAmount b
      → pos 0 ≤ℤ a
      → pos 0 ≤ℤ b
      → a +ℤ b ≤ℤ top
      → (sums.add a b ≡ a +ℤ b) × IsAmount (a +ℤ b)
  pub sub_ok :
      (a b : ℤ)
      → IsAmount a
      → IsAmount b
      → pos 0 ≤ℤ b
      → b ≤ℤ a
      → a ≤ℤ top
      → (sums.sub a b ≡ a -ℤ b) × IsAmount (a -ℤ b)
