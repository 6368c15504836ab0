-- ===== src/Ws/Rtds/Interval.antt =====
-- How often stale detection runs.
use polymarket_client.Base.{ℕ, ◌≤◌, ◌<◌, ◌*◌, arith}
use polymarket_client.Ws.Rtds.{default_stale_check_interval}

-- The interval of a positive timeout is positive, no longer than the timeout and at most 30
-- seconds.
pub default_stale_check_interval_lem :
    (timeout : ℕ)
    → 0 < timeout
    → (0 < default_stale_check_interval timeout)
      × (default_stale_check_interval timeout ≤ timeout)
      × (default_stale_check_interval timeout ≤ 30 * 1000000000)
unfolding default_stale_check_interval
default_stale_check_interval_lem timeout h = ground arith
