-- ===== src/Worker/Backoff/Laws.antt =====
-- The delays of the restart policy: bounded, growing, and the documented formula.
use Prim.Native.Nat.{min}
use native.Mathlib.Nat.{pow-le-pow_right, mul-le-mul_left}
use morpho_research_os.Prelude.{ℕ, ◌*◌, ◌^◌, ◌≤◌, ◌≡◌, arith}
use morpho_research_os.Worker.Backoff.{RestartPolicy, delay_for_attempt, u64_max}

-- The cap hides the saturation.
min_saturated : (x m top : ℕ) → m ≤ top → min (min x top) m ≡ min x m
min_saturated x m top h = omega arith

-- A delay is at most the longest one, a later attempt waits no less, and where the longest delay fits
-- 64 bits the attempts up to the sixteenth wait the base times two to the attempt, or the longest
-- delay if that is less: the saturation never shows.
pub delay_for_attempt-bounds :
    (p : RestartPolicy) (a b : ℕ)
    → a ≤ b
    → p.max_delay_ms ≤ u64_max
    → (delay_for_attempt p a ≤ p.max_delay_ms)
      × (delay_for_attempt p a ≤ delay_for_attempt p b)
      × (a ≤ 16 → delay_for_attempt p a ≡ min (p.base_delay_ms * 2 ^ a) p.max_delay_ms)
unfolding delay_for_attempt
delay_for_attempt-bounds p a b h k =
    let shift_le : min a 16 ≤ min b 16 = omega arith in
    let grows : p.base_delay_ms * 2 ^ min a 16 ≤ p.base_delay_ms * 2 ^ min b 16 =
      mul-le-mul_left p.base_delay_ms (pow-le-pow_right {n = 2} (omega arith) shift_le) in
    (
      omega arith,
      omega (arith, grows),
      λ small.
          let shift : min a 16 ≡ a = omega arith in
          rw shift (min_saturated (p.base_delay_ms * 2 ^ a) p.max_delay_ms u64_max k),
    )
