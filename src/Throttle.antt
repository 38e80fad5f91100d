-- ===== src/Throttle.antt =====
-- oxiterm-server/src/throttle.rs: the token buckets of a session's events. The numbers are exact
-- where the source has f64: tokens are counted in billionths, and an instant is a count of
-- nanoseconds, so that the rate times the time that has passed is a count of billionths.
pub mod Bounds
pub mod Episodes
mod Tests
use oxiterm.Common.{ℕ, ◌+◌, ◌-◌, ◌*◌, ◌^◌, min, Bool, true, false, leb, if◌then◌else◌}

-- A whole token.
abbrev pub token : ℕ
token = 10 ^ 9

pub record TokenBucket : Type 0 where
  pub capacity : ℕ
  pub refill_per_sec : ℕ
  pub tokens : ℕ
  pub last_refill : ℕ

abbrev pub new : ℕ → ℕ → ℕ → TokenBucket
new capacity refill_per_sec now = record {
  capacity = capacity;
  refill_per_sec = refill_per_sec;
  tokens = capacity * token;
  last_refill = now;
}

-- `duration_since` is 0 for an instant that is not later.
abbrev pub refill : TokenBucket → ℕ → TokenBucket
refill b now =
    let elapsed = now - b.last_refill in
    record b {
      tokens = min (b.tokens + elapsed * b.refill_per_sec) (b.capacity * token);
      last_refill = now;
    }

unfoldable pub try_consume : TokenBucket → ℕ → Bool × TokenBucket
try_consume b now =
    let b = refill b now in
    if leb token b.tokens then (true, record b { tokens = b.tokens - token }) else (false, b)

pub record EventThrottle : Type 0 where
  pub nav : TokenBucket
  pub input : TokenBucket
  pub nav_throttle_active : Bool

abbrev pub new_throttle : ℕ → EventThrottle
new_throttle now = record {
  nav = new 5 2 now;
  input = new 200 100 now;
  nav_throttle_active = false;
}

unfoldable pub check_nav : EventThrottle → ℕ → Bool × EventThrottle
unfolding try_consume
check_nav t now =
    let (allowed, nav) = try_consume t.nav now in
    if allowed
    then (true, record t { nav = nav; nav_throttle_active = false })
    else (false, record t { nav = nav })

unfoldable pub is_first_throttle : EventThrottle → Bool × EventThrottle
is_first_throttle t =
    if t.nav_throttle_active then (false, t) else (true, record t { nav_throttle_active = true })

unfoldable pub check_input : EventThrottle → ℕ → Bool × EventThrottle
unfolding try_consume
check_input t now =
    let (allowed, input) = try_consume t.input now in (allowed, record t { input = input })
