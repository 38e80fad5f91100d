-- ===== src/Unicode.antt =====
-- oxiterm-renderer/src/render/unicode.rs: the width cache. The tables of the crate
-- `unicode-width` (`UnicodeWidthChar::width` and `width_cjk`) are parameters.
pub mod Cache
use oxiterm.Common.{
  ℕ, ◌+◌, ◌≡◌, refl, ◌⊎◌, inl, inr, Bool, true, false, not, Option, none, some, List, [], ◌∷◌,
  arith, ltb, leb, ◌==◌, if◌then◌else◌, Option-cases,
}

-- `HashMap<char, u8>`, the newest entry first.
abbrev pub WidthCache : Type 0
WidthCache = List (ℕ × ℕ)

pub find : WidthCache → ℕ → Option ℕ
find [] ch = none
find ((c, w) ∷ cache) ch = if c == ch then some w else find cache ch

module _ (char_width : ℕ → Option ℕ) where
  -- `u8::try_from(ch.width().unwrap_or(0)).unwrap_or(0)`
  unfoldable pub computed_width : ℕ → ℕ
  computed_width ch = elim (char_width ch) [ none ↦ 0 | some w ↦ if leb w 255 then w else 0 ]

  -- What follows the read of the cache.
  abbrev pub or_computed : WidthCache → ℕ → Option ℕ → ℕ × WidthCache
  or_computed cache ch (some w) = (w, cache)
  or_computed cache ch none = (computed_width ch, (ch, computed_width ch) ∷ cache)

  -- `UnicodeWidthCache::width`: the answer, and the cache with it.
  pub width : WidthCache → ℕ → ℕ × WidthCache
  unfolding find
  width cache ch = or_computed cache ch (find cache ch)

-- `is_ambiguous_width`
unfoldable pub is_ambiguous_width : (ℕ → Option ℕ) → (ℕ → Option ℕ) → ℕ → Bool
is_ambiguous_width char_width char_width_cjk ch = elim (char_width ch) [
  | none ↦ false
  | some a ↦ elim (char_width_cjk ch) [ none ↦ false | some b ↦ not (a == b) ]
]
