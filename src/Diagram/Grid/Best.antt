-- ===== src/Diagram/Grid/Best.antt =====
-- The window that a search selects is the fullest of those that it accepts.
use oxiterm.Common.{ℕ, ◌≤◌, ◌≡◌, Bool, true}
use oxiterm.Diagram.Grid.Crop.{Best, try_window, step_if}

module _ (accepts : ℕ → ℕ → Bool) (count : ℕ → ℕ → ℕ) where
  -- What is found is accepted, with its count.
  IsAccepted : Best → Type 0
  IsAccepted b =
      b.found_candidate ≡ true
      → (accepts b.best_x0 b.best_y0 ≡ true) × (b.max_count ≡ count b.best_x0 b.best_y0)

  -- A window is not accepted, or it is no fuller than what is found.
  Beats : Best → ℕ → ℕ → Type 0
  Beats b x y = accepts x y ≡ true → (b.found_candidate ≡ true) × (count x y ≤ b.max_count)

  step : ℕ → ℕ → Best → Best
  step = step_if accepts (try_window count)
