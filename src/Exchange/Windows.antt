-- ===== src/Exchange/Windows.antt =====
-- The windows that workers map.
use native.Mathlib.Nat.{mul-le-mul_right}
use mc_mjlab.Prelude.{ℕ, ◌+◌, ◌*◌, ◌≤◌, String, ◌≡◌, arith, pos, ok}
use mc_mjlab.Exchange.{Window, row_window, item_size}

scaled_sum : (a b c w : ℕ) → a + b ≤ c → 8 * a * w + 8 * b * w ≤ 8 * c * w
scaled_sum a b c w h =
    let bound : (8 * a + 8 * b) * w ≤ 8 * c * w = mul-le-mul_right w (omega (arith, h)) in
    ground (arith, bound)

-- Windows of different rows do not overlap, and lie within the block.
pub row_window_disjoint :
    (name : String) (rows width a m b n : ℕ) {u v : Window}
    → row_window name rows width (pos a) (pos m) ≡ ok u
    → row_window name rows width (pos b) (pos n) ≡ ok v
    → a + m ≤ b
    → (u.offset + u.size ≤ v.offset) × (v.offset + v.size ≤ item_size * rows * width)
unfolding row_window
row_window_disjoint name rows width a m b n h k l =
    ground (arith, h, k, scaled_sum a m b width l, scaled_sum b n rows width)
