-- ===== src/Unicode/Cache.antt =====
-- The width cache never changes an answer.
use oxiterm.Common.{ℕ, ◌≡◌, refl, Option, none, some, [], ◌∷◌, arith, All}
use oxiterm.Unicode.{WidthCache, find, computed_width, or_computed, width}

module _ (char_width : ℕ → Option ℕ) where
  -- Every entry holds what would be computed.
  abbrev pub IsConsistent : WidthCache → Type 0
  IsConsistent cache = All (λ (e : ℕ × ℕ). e.1 ≡ computed_width char_width e.0) cache

  find-IsConsistent :
      (cache : WidthCache) (ch w : ℕ)
      → IsConsistent cache
      → find cache ch ≡ some w
      → w ≡ computed_width char_width ch
  unfolding find
  find-IsConsistent [] ch w h e = cc
  find-IsConsistent ((c, v) ∷ cache) ch w h e = ground (arith, find-IsConsistent cache ch w h.1)

  found-IsConsistent :
      (cache : WidthCache) (ch : ℕ) (found : Option ℕ)
      → find cache ch ≡ found
      → IsConsistent cache
      → ((or_computed char_width cache ch found).0 ≡ computed_width char_width ch)
        × IsConsistent (or_computed char_width cache ch found).1
  found-IsConsistent cache ch none e h = (refl, (refl, h))
  found-IsConsistent cache ch (some w) e h = (find-IsConsistent cache ch w h e, h)

  -- With a cache of computed widths, the empty one included, `width` gives the computed width of any
  -- character, cached or not, and leaves a cache of computed widths.
  width-IsConsistent :
      (cache : WidthCache) (ch : ℕ)
      → IsConsistent cache
      → ((width char_width cache ch).0 ≡ computed_width char_width ch)
        × IsConsistent (width char_width cache ch).1
  unfolding width
  width-IsConsistent cache ch h = found-IsConsistent cache ch (find cache ch) refl h
