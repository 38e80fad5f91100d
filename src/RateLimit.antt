-- ===== src/RateLimit.antt =====
-- oxiterm-server/src/ratelimit.rs: `RateLimiter`. An address is a number, a time is in nanoseconds,
-- and `duration_since` is 0 for a later time. The threshold, a product of `f32` cast to `u32`, is a
-- function of the limit.
pub mod Admissions
mod Tests
use oxiterm.Common.{
  ℕ, ◌+◌, ◌-◌, ◌*◌, Option, none, some, List, [], ◌∷◌, length, lookup, ltb, leb, ◌==◌,
  if◌then◌else◌,
}

pub record WindowCounter : Type 0 where
  pub count : ℕ
  pub window_start : ℕ

pub record RateLimiter : Type 0 where
  pub windows : List (ℕ × WindowCounter)
  pub limit_per_min : ℕ

-- The delay is in milliseconds.
pub data RateResult : Type 0 where
  allow deny : RateResult
  throttle : ℕ → RateResult

abbrev pub new : ℕ → RateLimiter
new limit_per_min = record { windows = []; limit_per_min = limit_per_min }

-- `Duration::from_secs(60)`
abbrev pub minute : ℕ
minute = 60000000000

-- `windows.retain`
unfoldable pub retain : ℕ → List (ℕ × WindowCounter) → List (ℕ × WindowCounter)
retain now [] = []
retain now ((ip, c) ∷ windows) =
    let kept = retain now windows in
    if ltb (now - c.window_start) minute then (ip, c) ∷ kept else kept

pub evict : ℕ → List (ℕ × WindowCounter) → List (ℕ × WindowCounter)
unfolding retain
evict now windows = if ltb 1000 (length windows) then retain now windows else windows

-- `entry(ip).or_insert_with`
abbrev pub counter_of : ℕ → Option WindowCounter → WindowCounter
counter_of now none = record { count = 0; window_start = now }
counter_of now (some c) = c

-- What is written through the entry.
pub put : List (ℕ × WindowCounter) → ℕ → WindowCounter → List (ℕ × WindowCounter)
put [] ip c = (ip, c) ∷ []
put ((i, old) ∷ windows) ip c =
    let later = put windows ip c in if i == ip then (i, c) ∷ windows else (i, old) ∷ later

module _ (threshold : ℕ → ℕ) where
  -- The match on the counter of the address.
  pub decide : ℕ → ℕ → WindowCounter → RateResult × WindowCounter
  decide limit now c =
      if ltb minute (now - c.window_start)
      then (allow, record { count = 1; window_start = now })
      else if leb limit c.count
      then (deny, c)
      else (
        if ltb (threshold limit) (c.count + 1)
            then throttle (100 * (c.count + 1 - threshold limit))
            else allow,
        record c { count = c.count + 1 },
      )

  pub check_and_record : RateLimiter → ℕ → ℕ → RateResult × RateLimiter
  unfolding evict decide put
  check_and_record l ip now =
      let windows = evict now l.windows in
      let decided = decide l.limit_per_min now (counter_of now (lookup windows ip)) in
      (decided.0, record l { windows = put windows ip decided.1 })
