-- ===== src/Evaluation/Statistics/Resolving.antt =====
-- The number of clusters that would resolve an effect.
use mc_mjlab.Prelude.{ℕ, ◌+◌, ◌≤◌, ◌<◌, Bool, true, false, Option, none, some, ◌≡◌}
use mc_mjlab.Float.{Float}

-- what `first_count` returns: the least count from `start` on that passes, below `start + n`
pub data IsLeast (test : ℕ → Bool) (start n : ℕ) : Option ℕ → Type 0 where
  found :
      (count : ℕ)
      → start ≤ count
      → count < start + n
      → test count ≡ true
      → ((m : ℕ) → start ≤ m → m < count → test m ≡ false)
      → IsLeast test start n (some count)
  missing : ((m : ℕ) → start ≤ m → m < start + n → test m ≡ false) → IsLeast test start n none
