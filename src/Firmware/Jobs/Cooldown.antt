-- ===== src/Firmware/Jobs/Cooldown.antt =====
-- The promise of the Retry-After header of rest.rs.
use bolty_rs.Prelude.{ℕ, ◌+◌, ◌*◌, ◌≤◌, ◌≡◌, ◌↔◌, ok, err, arith}
use bolty_rs.Firmware.Jobs.{RateLimiter, check_write, record_write}

-- When the last write is not in the future, a client that is told to wait some seconds is told
-- between one and six, and is let through at any time from then on.
pub check_write_retry :
    (limiter : RateLimiter) (now later secs : ℕ)
    → limiter.last_write_us ≤ now
    → check_write limiter now ≡ err secs
    → now + secs * 1000000 ≤ later
    → (1 ≤ secs) × (secs ≤ 6) × (check_write limiter later ≡ ok tt)
unfolding check_write
check_write_retry limiter now later secs p e w = ground arith

-- After a write, another is let through if and only if five seconds have passed.
pub record_write-check_write :
    (limiter : RateLimiter) (now later : ℕ)
    → (check_write (record_write limiter now) later ≡ ok tt) ↔ (now + 5000000 ≤ later)
unfolding check_write record_write
record_write-check_write limiter now later = ground arith
