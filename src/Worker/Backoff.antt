-- ===== src/Worker/Backoff.antt =====
-- The restart policy (worker/mod.rs): a delay is a `u64`, and the product saturates.
pub mod Laws
use Prim.Native.Nat.{min}
use morpho_research_os.Prelude.{ℕ, ◌-◌, ◌*◌, ◌^◌}

pub record RestartPolicy : Type 0 where
  pub max_restarts : ℕ
  pub base_delay_ms : ℕ
  pub max_delay_ms : ℕ

-- `RestartPolicy::default`.
abbrev pub default_policy : RestartPolicy
default_policy = record { max_restarts = 3; base_delay_ms = 250; max_delay_ms = 8000 }

abbrev pub u64_max : ℕ
u64_max = 2 ^ 64 - 1

abbrev pub saturating_mul : ℕ → ℕ → ℕ
saturating_mul a b = min (a * b) u64_max

unfoldable pub delay_for_attempt : RestartPolicy → ℕ → ℕ
delay_for_attempt p attempt =
    let shift = min attempt 16 in min (saturating_mul p.base_delay_ms (2 ^ shift)) p.max_delay_ms
