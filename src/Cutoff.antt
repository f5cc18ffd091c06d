-- ===== src/Cutoff.antt =====
-- `get_cutoff` (src/ore_utils.rs): the seconds that are left of the minute after the last hash.
use coal_pool_server.Prelude.{ℕ}
use coal_pool_server.Prelude.Int.{ℤ, pos, saturating_add, saturating_sub}
use coal_pool_server.State.{Proof}

-- `now` is the clock in seconds.
unfoldable pub get_cutoff : Proof → ℕ → ℕ → ℤ
get_cutoff proof buffer_time now =
    saturating_sub (saturating_sub (saturating_add proof.last_hash_at (pos 60)) (pos buffer_time))
      (pos now)
