-- ===== src/Common/Ceil.antt =====
-- `ceil(n / d)` of whole numbers.
use native.Mathlib.Nat.{div-lt_iff_lt-mul}
use Prim.Native.Nat.{ℕ, ◌+◌, ◌-◌, ◌*◌, ◌/◌, ◌≤◌, ◌<◌}
use mathlib.Core.Path.{◌≡◌}
use native.Mathlib.Omega.{arith}

unfoldable pub ceil_div : ℕ → ℕ → ℕ
ceil_div n d = (n + d - 1) / d

module _ {d : ℕ} (positive : 0 < d) where
  -- The ceiling is the least `k` with `n ≤ k * d`.
  pub ceil_div-le : (n k : ℕ) → n ≤ k * d → ceil_div n d ≤ k
  unfolding ceil_div
  ceil_div-le n k h =
      let below : (n + d - 1) / d < k + 1 = (div-lt_iff_lt-mul positive).1 (omega arith) in
      omega arith

  pub le-ceil_div-mul : (n : ℕ) → n ≤ ceil_div n d * d
  unfolding ceil_div
  le-ceil_div-mul n =
      let k : ℕ = (n + d - 1) / d in
      let above : n + d - 1 < (k + 1) * d = (div-lt_iff_lt-mul positive).0 (omega arith) in
      omega arith

  pub ceil_div-mul : (k : ℕ) → ceil_div (k * d) d ≡ k
  ceil_div-mul k =
      let up : k * d ≤ ceil_div (k * d) d * d = le-ceil_div-mul (k * d) in
      let down : ceil_div (k * d) d ≤ k = ceil_div-le (k * d) k (omega arith) in grind arith

  pub ceil_div-add : (m n : ℕ) → ceil_div (m + n) d ≤ ceil_div m d + ceil_div n d
  ceil_div-add m n =
      ceil_div-le (m + n) (ceil_div m d + ceil_div n d)
        (omega (arith, le-ceil_div-mul m, le-ceil_div-mul n))

  pub ceil_div_mono : (m n : ℕ) → m ≤ n → ceil_div m d ≤ ceil_div n d
  ceil_div_mono m n h = ceil_div-le m (ceil_div n d) (omega (arith, le-ceil_div-mul n))

  pub lt-mul_of_lt-ceil_div : (n k : ℕ) → k < ceil_div n d → k * d < n
  lt-mul_of_lt-ceil_div n k h = ground (arith, ceil_div-le n k)
