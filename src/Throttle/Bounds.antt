-- ===== src/Throttle/Bounds.antt =====
-- How many events a bucket lets pass.
use oxiterm.Common.{
  ℕ, suc, ◌+◌, ◌-◌, ◌*◌, ◌≤◌, ◌≡◌, ap, ◌∙◌, List, [], ◌∷◌, arith, leb, if◌then◌else◌, Bool-cases,
  inl, inr, leb→le,
}
use oxiterm.Throttle.{TokenBucket, token, new, refill, try_consume}

-- How many of the events at some times a bucket lets pass.
unfoldable pub passed : TokenBucket → List ℕ → ℕ
unfolding try_consume
passed b [] = 0
passed b (now ∷ times) =
    let (allowed, b') = try_consume b now in
    let later = passed b' times in if allowed then suc later else later

-- Times that do not decrease, from a first to a last one.
unfoldable pub Ascending : ℕ → List ℕ → ℕ → Type 0
Ascending t [] end = t ≤ end
Ascending t (now ∷ times) end = (t ≤ now) × Ascending now times end

Ascending-le : (times : List ℕ) (t end : ℕ) → Ascending t times end → t ≤ end
unfolding Ascending
Ascending-le [] t end h = h
Ascending-le (now ∷ times) t end h = omega (arith, h.0, Ascending-le times now end h.1)

distribute : (d a r : ℕ) → d * r + a * r ≡ (a + d) * r
distribute d a r = omega arith

elapsed_split : (a b r : ℕ) → a ≤ b → (b - a) * r + a * r ≡ b * r
elapsed_split a b r h =
    let back : a + (b - a) ≡ b = omega (arith, h) in distribute (b - a) a r ∙ ap (λ x. x * r) back

passed-tokens :
    (times : List ℕ) (b : TokenBucket) (end : ℕ)
    → Ascending b.last_refill times end
    → passed b times * token + b.last_refill * b.refill_per_sec ≤ b.tokens + end * b.refill_per_sec
unfolding passed Ascending
passed-tokens [] b end h = omega (arith, elapsed_split b.last_refill end b.refill_per_sec h)
passed-tokens (now ∷ times) b end h =
    let r = refill b now in
    let split = elapsed_split b.last_refill now b.refill_per_sec h.0 in
    elim (Bool-cases (leb token r.tokens)) [
      | inl e ↦ rw e (
          omega (
            arith,
            split,
            leb→le token r.tokens e,
            passed-tokens times (record r { tokens = r.tokens - token }) end h.1,
          ))
      | inr e ↦ rw e (omega (arith, split, passed-tokens times r end h.1))
    ]

-- From a new bucket until a later time pass at most as many events as its capacity and what is
-- refilled in between, in billionths of a token.
pub passed-new :
    (capacity rate start end : ℕ) (times : List ℕ)
    → Ascending start times end
    → passed (new capacity rate start) times * token ≤ capacity * token + (end - start) * rate
passed-new capacity rate start end times h = omega (
  arith,
  elapsed_split start end rate (Ascending-le times start end h),
  passed-tokens times (new capacity rate start) end h,
)
