-- ===== src/Throttle/Episodes.antt =====
-- The notices of throttled navigation.
use oxiterm.Common.{
  ℕ, ◌≡◌, refl, ◌∙◌, ap, ap₂, Bool, true, false, not, ◌&&◌, List, [], ◌∷◌, arith, if◌then◌else◌,
}
use oxiterm.Throttle.{EventThrottle, check_nav, is_first_throttle}

-- How the event loop treats a navigation: whether it is followed, and whether a notice is sent.
pub navigate : EventThrottle → ℕ → Bool × Bool × EventThrottle
unfolding check_nav is_first_throttle
navigate t now =
    let (allowed, t) = check_nav t now in
    let (first, later) = is_first_throttle t in
    if allowed then (true, false, t) else (false, first, later)

navigate_notice :
    (t : EventThrottle) (now : ℕ)
    → (navigate t now).1 ≡ (not (navigate t now).0 && not t.nav_throttle_active)
unfolding navigate
navigate_notice t now = ground arith

navigate_active :
    (t : EventThrottle) (now : ℕ) → (navigate t now).2.nav_throttle_active ≡ not (navigate t now).0
unfolding navigate
navigate_active t now = ground arith

-- Which of the navigations at some times are followed, and at which a notice is sent.
unfoldable pub followed : EventThrottle → List ℕ → List Bool
unfolding navigate
followed t [] = []
followed t (now ∷ times) = let (allowed, _, t') = navigate t now in allowed ∷ followed t' times

unfoldable pub notices : EventThrottle → List ℕ → List Bool
unfolding navigate
notices t [] = []
notices t (now ∷ times) = let (_, notice, t') = navigate t now in notice ∷ notices t' times

-- Where the episodes of refused navigations begin: at a refusal that follows none.
unfoldable pub beginnings : Bool → List Bool → List Bool
beginnings refused [] = []
beginnings refused (allowed ∷ later) = (not allowed && not refused) ∷ beginnings (not allowed) later

-- A notice is sent exactly where an episode of refused navigations begins.
pub notices-beginnings :
    (t : EventThrottle) (times : List ℕ)
    → notices t times ≡ beginnings t.nav_throttle_active (followed t times)
unfolding notices followed beginnings
notices-beginnings t [] = refl
notices-beginnings t (now ∷ times) =
    let t' = (navigate t now).2 in
    ap₂ ◌∷◌ (navigate_notice t now) (
      notices-beginnings t' times
      ∙ ap (λ b. beginnings b (followed t' times)) (navigate_active t now))
