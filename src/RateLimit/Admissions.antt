-- ===== src/RateLimit/Admissions.antt =====
-- Within a minute each address is admitted as often as the limit says.
use oxiterm.Common.{
  ℕ, suc, ◌+◌, ◌-◌, ◌≤◌, ◌<◌, ◌≡◌, ◌≢◌, refl, sym, ◌∙◌, ap, Bool, true, false, ◌&&◌, Option, none,
  some, List, [], ◌∷◌, arith, All, lookup, length, ltb, ◌==◌, if◌then◌else◌, Bool-cases, inl, inr,
  min, ==_iff, ltb→lt, ltb→ge,
}
use oxiterm.RateLimit.{
  WindowCounter, RateLimiter, RateResult, deny, new, minute, retain, evict, counter_of, put, decide,
  check_and_record,
}

abbrev pub is_admitted : RateResult → Bool
is_admitted deny = false
is_admitted _ = true

-- The requests of an address among some, each an address and a time.
pub requests : List (ℕ × ℕ) → ℕ → ℕ
requests [] ip = 0
requests ((i, now) ∷ rs) ip = if i == ip then suc (requests rs ip) else requests rs ip

-- How many of them the limiter admits.
pub admissions : (ℕ → ℕ) → RateLimiter → List (ℕ × ℕ) → ℕ → ℕ
admissions threshold l [] ip = 0
admissions threshold l ((i, now) ∷ rs) ip =
    let (r, l') = check_and_record threshold l i now in
    let later = admissions threshold l' rs ip in
    if (i == ip) && is_admitted r then suc later else later

-- The count of an address.
abbrev count_of : Option WindowCounter → ℕ
count_of none = 0
count_of (some c) = c.count

abbrev used : List (ℕ × WindowCounter) → ℕ → ℕ
used windows ip = count_of (lookup windows ip)

-- No window began before a time.
abbrev Young : ℕ → List (ℕ × WindowCounter) → Type 0
Young t windows = All (λ (e : ℕ × WindowCounter). t ≤ e.1.window_start) windows

-- The times lie in the minute behind a time.
abbrev pub Within : ℕ → List (ℕ × ℕ) → Type 0
Within t rs = All (λ (r : ℕ × ℕ). (t ≤ r.1) × (r.1 < t + minute)) rs

young_kept : (t now start : ℕ) → now < t + minute → t ≤ start → ltb (now - start) minute ≡ true
young_kept t now start h y = ground arith

retain-Young :
    (t now : ℕ) (windows : List (ℕ × WindowCounter))
    → now < t + minute
    → Young t windows
    → retain now windows ≡ windows
unfolding retain
retain-Young t now [] h y = refl
retain-Young t now ((ip, c) ∷ windows) h y =
    rw (young_kept t now c.window_start h y.0, retain-Young t now windows h y.1) refl

evict-Young :
    (t now : ℕ) (windows : List (ℕ × WindowCounter))
    → now < t + minute
    → Young t windows
    → evict now windows ≡ windows
unfolding evict
evict-Young t now windows h y = elim (Bool-cases (ltb 1000 (length windows))) [
  | inl e ↦ rw e (retain-Young t now windows h y)
  | inr e ↦ rw e refl
]

lookup-put_self :
    (windows : List (ℕ × WindowCounter)) (ip : ℕ) (c : WindowCounter)
    → lookup (put windows ip c) ip ≡ some c
unfolding put
lookup-put_self [] ip c = ground arith
lookup-put_self ((i, old) ∷ windows) ip c = elim (Bool-cases (i == ip)) [
  | inl e ↦ rw (e, e) refl
  | inr e ↦ rw (e, e) (lookup-put_self windows ip c)
]

differ : (i ip : ℕ) → (i == ip) ≡ false → i ≢ ip
differ i ip e q = ground arith

other_key : (i ip j : ℕ) → (i == ip) ≡ true → ip ≢ j → (i == j) ≡ false
other_key i ip j e ne = ground arith

lookup-put_ne :
    (windows : List (ℕ × WindowCounter)) (ip j : ℕ) (c : WindowCounter)
    → ip ≢ j
    → lookup (put windows ip c) j ≡ lookup windows j
unfolding put
lookup-put_ne [] ip j c ne = ground arith
lookup-put_ne ((i, old) ∷ windows) ip j c ne = elim (Bool-cases (i == ip)) [
  | inl e ↦ rw (e, other_key i ip j e ne) refl
  | inr e ↦ elim (Bool-cases (i == j)) [
    | inl f ↦ rw (e, f) refl
    | inr f ↦ rw (e, f) (lookup-put_ne windows ip j c ne)
  ]
]

put-Young :
    (t : ℕ) (windows : List (ℕ × WindowCounter)) (ip : ℕ) (c : WindowCounter)
    → t ≤ c.window_start
    → Young t windows
    → Young t (put windows ip c)
unfolding put
put-Young t [] ip c h y = (h, tt)
put-Young t ((i, old) ∷ windows) ip c h y = elim (Bool-cases (i == ip)) [
  | inl e ↦ rw e (h, y.1)
  | inr e ↦ rw e (y.0, put-Young t windows ip c h y.1)
]

module _ (threshold : ℕ → ℕ) (t : ℕ) where
  -- What a decision leaves of a counter that began no earlier than `t`.
  record Decided (limit : ℕ) (c : WindowCounter) (r : RateResult × WindowCounter) : Type 0 where
    pub admitted : is_admitted r.0 ≡ ltb c.count limit
    pub count : r.1.count ≡ (if ltb c.count limit then suc c.count else c.count)
    pub young : t ≤ r.1.window_start

  decide-Decided :
      (limit now : ℕ) (c : WindowCounter)
      → now < t + minute
      → t ≤ c.window_start
      → Decided limit c (decide threshold limit now c)
  unfolding decide
  decide-Decided limit now c h y = record {
    admitted = ground arith;
    count = ground arith;
    young = ground arith;
  }

  counter_of-window_start :
      (windows : List (ℕ × WindowCounter)) (now ip : ℕ)
      → t ≤ now
      → Young t windows
      → t ≤ (counter_of now (lookup windows ip)).window_start
  counter_of-window_start [] now ip h y = h
  counter_of-window_start ((i, c) ∷ windows) now ip h y = elim (Bool-cases (i == ip)) [
    | inl e ↦ rw e (y.0)
    | inr e ↦ rw e (counter_of-window_start windows now ip h y.1)
  ]

  counter_of-count : (now : ℕ) (o : Option WindowCounter) → (counter_of now o).count ≡ count_of o
  counter_of-count now none = refl
  counter_of-count now (some c) = refl

  -- One request: the address itself is counted, the others keep what they had.
  record Recorded (l : RateLimiter) (i now : ℕ) (r : RateResult × RateLimiter) : Type 0 where
    pub young : Young t r.1.windows
    pub limit : r.1.limit_per_min ≡ l.limit_per_min
    pub admitted : is_admitted r.0 ≡ ltb (used l.windows i) l.limit_per_min
    pub own : used r.1.windows i ≡ (
        if ltb (used l.windows i) l.limit_per_min then suc (used l.windows i) else used l.windows i)
    pub others : (ip : ℕ) → i ≢ ip → used r.1.windows ip ≡ used l.windows ip

  check-Recorded :
      (l : RateLimiter) (i now : ℕ)
      → t ≤ now
      → now < t + minute
      → Young t l.windows
      → Recorded l i now (check_and_record threshold l i now)
  unfolding check_and_record
  check-Recorded l i now h h' y =
      let c = counter_of now (lookup l.windows i) in
      let d =
        decide-Decided l.limit_per_min now c h' (counter_of-window_start l.windows now i h y) in
      let e = counter_of-count now (lookup l.windows i) in
      rw (evict-Young t now l.windows h' y) (record {
        young = put-Young t l.windows i (decide threshold l.limit_per_min now c).1 d.young y;
        limit = refl;
        admitted = d.admitted ∙ ap (λ n. ltb n l.limit_per_min) e;
        own =
            ap count_of (lookup-put_self l.windows i (decide threshold l.limit_per_min now c).1)
            ∙ d.count
            ∙ ap (λ n. if ltb n l.limit_per_min then suc n else n) e;
        others = λ ip ne.
            ap count_of
              (lookup-put_ne l.windows i ip (decide threshold l.limit_per_min now c).1 ne);
      })

  admissions-used :
      (rs : List (ℕ × ℕ)) (l : RateLimiter) (ip : ℕ)
      → Within t rs
      → Young t l.windows
      → used l.windows ip ≤ l.limit_per_min
      → admissions threshold l rs ip + used l.windows ip
        ≡ min l.limit_per_min (used l.windows ip + requests rs ip)
  unfolding admissions requests
  admissions-used [] l ip w y h = omega arith
  admissions-used ((i, now) ∷ rs) l ip w y h =
      let r = check_and_record threshold l i now in
      let k = check-Recorded l i now w.0.0 w.0.1 y in
      elim (Bool-cases (i == ip)) [
        | inr e ↦
            let same = k.others ip (differ i ip e) in
            let later = admissions-used rs r.1 ip w.1 k.young (omega (arith, same, k.limit, h)) in
            rw e (omega (arith, later, same, k.limit))
        | inl e ↦
            let q = (==_iff i ip).0 e in
            let before = ap (used l.windows) q in
            let own = sym (ap (used r.1.windows) q) ∙ k.own in
            elim (Bool-cases (ltb (used l.windows i) l.limit_per_min)) [
              | inl room ↦
                  let lt = ltb→lt (used l.windows i) l.limit_per_min room in
                  let n : used r.1.windows ip ≡ suc (used l.windows i) =
                    own ∙ ap (λ b. if b then suc (used l.windows i) else used l.windows i) room in
                  let later =
                    admissions-used rs r.1 ip w.1 k.young (omega (arith, n, k.limit, lt)) in
                  rw (e, k.admitted ∙ room) (omega (arith, later, n, k.limit, before, lt))
              | inr full ↦
                  let ge = ltb→ge (used l.windows i) l.limit_per_min full in
                  let n : used r.1.windows ip ≡ used l.windows i =
                    own ∙ ap (λ b. if b then suc (used l.windows i) else used l.windows i) full in
                  let later =
                    admissions-used rs r.1 ip w.1 k.young (omega (arith, n, k.limit, h, before)) in
                  rw (e, k.admitted ∙ full) (omega (arith, later, n, k.limit, before, ge, h))
            ]
      ]

  -- Of the requests that come within a minute, a new limiter admits each address's first ones, as
  -- many as the limit says, and no more: admitted are the least of the limit and of the requests.
  pub admissions-new :
      (limit : ℕ) (rs : List (ℕ × ℕ)) (ip : ℕ)
      → Within t rs
      → admissions threshold (new limit) rs ip ≡ min limit (requests rs ip)
  admissions-new limit rs ip w = omega (arith, admissions-used rs (new limit) ip w tt (omega arith))
