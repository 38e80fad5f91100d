-- ===== src/RateLimit/Tests.antt =====
-- Two clients within a minute.
use oxiterm.Common.{ℕ, ◌*◌, ◌/◌, ◌≡◌, refl, List, [], ◌∷◌, arith, min}
use oxiterm.RateLimit.{throttle, new, check_and_record}
use oxiterm.RateLimit.Admissions.{requests, admissions, Within, admissions-new}

-- Eight tenths of the limit, for limits that `f32` holds exactly.
abbrev four_fifths : ℕ → ℕ
four_fifths limit = limit * 4 / 5

abbrev arrivals : List (ℕ × ℕ)
arrivals = (1, 5) ∷ (2, 6) ∷ (1, 7) ∷ (1, 8) ∷ []

arrivals-Within : Within 5 arrivals
arrivals-Within = (
  (omega arith, omega arith),
  ((omega arith, omega arith), ((omega arith, omega arith), ((omega arith, omega arith), tt))),
)

admissions-new_example : admissions four_fifths (new 2) arrivals 1 ≡ min 2 (requests arrivals 1)
admissions-new_example = admissions-new four_fifths 5 2 arrivals 1 arrivals-Within

-- The second of two requests comes behind four fifths of the limit, and is told to wait.
second_waits :
    (check_and_record four_fifths (check_and_record four_fifths (new 2) 1 5).1 1 7).0 ≡ throttle 100
unfolding check_and_record
second_waits = refl
