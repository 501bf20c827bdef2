-- ===== src/Publisher/Publish/Delay.antt =====
-- The delay before a failed event is due again: outbox_publisher.py, `publish_batch`.
use native.Mathlib.Nat.{two-pow-succ}
use enterprise_rag_ingestion.Prelude.{ℕ, zero, suc, ◌+◌, ◌^◌, ◌≤◌, ◌≡◌, min, arith}
use enterprise_rag_ingestion.Publisher.Publish.{retry_delay}

power_bounds : (k m : ℕ) → k ≤ m → (1 ≤ 2 ^ k) × (2 ^ k ≤ 2 ^ m)
power_bounds zero zero h = (omega arith, omega arith)
power_bounds zero (suc m) h =
    let (least, most) = power_bounds zero m (omega arith) in
    (omega arith, omega (arith, two-pow-succ m))
power_bounds (suc k) zero h = absurd (omega arith)
power_bounds (suc k) (suc m) h =
    let (least, most) = power_bounds k m (omega arith) in
    (omega (arith, two-pow-succ k), omega (arith, two-pow-succ k, two-pow-succ m))

-- The delay after the n-th attempt is 2 ^ min n 8 seconds, from 1 to 256 of them: the cap of 300
-- never applies. It never shrinks from one attempt to the next.
pub retry_delay_lem :
    (n : ℕ)
    → (retry_delay n ≡ 2 ^ min n 8)
      × (1 ≤ retry_delay n)
      × (retry_delay n ≤ 256)
      × (retry_delay n ≤ retry_delay (n + 1))
unfolding retry_delay
retry_delay_lem n =
    let (least, most) = power_bounds (min n 8) 8 (omega arith) in
    let (again, most') = power_bounds (min (n + 1) 8) 8 (omega arith) in
    let grows = (power_bounds (min n 8) (min (n + 1) 8) (omega arith)).1 in
    (omega arith, omega arith, omega arith, omega arith)
