-- ===== src/Common/Splits.antt =====
-- Texts that are split at characters of a kind.
use oxiterm.Common.{
  ℕ, ◌≡◌, refl, Bool, true, false, List, [], ◌∷◌, ◌++◌, All, subst, Bool-cases, inl, inr,
}
use oxiterm.Common.Texts.{Text, split_if, cons_first}

module _ (test : ℕ → Bool) where
  abbrev pub Free : Text → Type 0
  Free = All (λ c. test c ≡ false)

  pub split_if-first : (s : Text) → (p : Text) × ((ps : List Text) × (split_if test s ≡ p ∷ ps))
  unfolding split_if cons_first
  split_if-first [] = ([], ([], refl))
  split_if-first (c ∷ s) = elim (Bool-cases (test c)) [
    | inl e ↦ ([], (split_if test s, rw e refl))
    | inr e ↦ let (p, (ps, f)) = split_if-first s in (c ∷ p, (ps, rw (e, f) refl))
  ]

  pub split_if-middle :
      (s : Text) (c : ℕ) (rest : Text)
      → test c ≡ true
      → split_if test (s ++ c ∷ rest) ≡ split_if test s ++ split_if test rest
  unfolding split_if cons_first
  split_if-middle [] c rest h = rw h refl
  split_if-middle (d ∷ s) c rest h = elim (Bool-cases (test d)) [
    | inl e ↦ rw (e, split_if-middle s c rest h) refl
    | inr e ↦ let (p, (ps, f)) = split_if-first s in rw (e, split_if-middle s c rest h, f) refl
  ]

  pub split_if-Free : (s : Text) → All Free (split_if test s)
  unfolding split_if cons_first
  split_if-Free [] = (tt, tt)
  split_if-Free (c ∷ s) = elim (Bool-cases (test c)) [
    | inl e ↦ rw e (tt, split_if-Free s)
    | inr e ↦
        let (p, (ps, f)) = split_if-first s in
        let others : All Free (p ∷ ps) = subst (All Free) f (split_if-Free s) in
        rw (e, f) ((e, others.0), others.1)
  ]

  pub split_if-whole : (s : Text) → Free s → split_if test s ≡ s ∷ []
  unfolding split_if cons_first
  split_if-whole [] h = refl
  split_if-whole (c ∷ s) h = rw (h.0, split_if-whole s h.1) refl
