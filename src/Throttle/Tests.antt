-- ===== src/Throttle/Tests.antt =====
-- Seven navigations within two seconds, and then one that is followed again.
use oxiterm.Common.{ℕ, ◌+◌, ◌-◌, ◌*◌, ◌≤◌, ◌≡◌, refl, true, false, List, [], ◌∷◌, arith}
use oxiterm.Throttle.{token, new, new_throttle}
use oxiterm.Throttle.Bounds.{passed, Ascending, passed-new}
use oxiterm.Throttle.Episodes.{followed, notices, beginnings, notices-beginnings}

abbrev burst : List ℕ
burst = 0 ∷ 0 ∷ 1 ∷ 2 ∷ 3 ∷ 4 ∷ 5 ∷ 500000000 ∷ 500000001 ∷ []

burst-followed :
    followed (new_throttle 0) burst
    ≡ true ∷ true ∷ true ∷ true ∷ true ∷ false ∷ false ∷ true ∷ false ∷ []
unfolding followed
burst-followed = refl

burst-notices :
    notices (new_throttle 0) burst
    ≡ false ∷ false ∷ false ∷ false ∷ false ∷ true ∷ false ∷ false ∷ true ∷ []
unfolding notices
burst-notices = refl

burst-Ascending : Ascending 0 burst 500000002
unfolding Ascending
burst-Ascending = (
  omega arith,
  (
    omega arith,
    (
      omega arith,
      (
        omega arith,
        (omega arith, (omega arith, (omega arith, (omega arith, (omega arith, omega arith))))),
      ),
    ),
  ),
)

passed-new_example : passed (new 5 2 0) burst * token ≤ 5 * token + (500000002 - 0) * 2
passed-new_example = passed-new 5 2 0 500000002 burst burst-Ascending

notices-beginnings_example :
    notices (new_throttle 0) burst ≡ beginnings false (followed (new_throttle 0) burst)
notices-beginnings_example = notices-beginnings (new_throttle 0) burst
