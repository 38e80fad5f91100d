-- ===== src/Assets.antt =====
-- oxiterm-renderer/src/render/cache.rs: the cache of rendered frames and the playback states. A path
-- is a text. Methods behind a lock are functions of what it guards.
pub mod Fifo
mod Tests
use oxiterm.Common.{
  ℕ, Bool, true, false, not, ◌&&◌, Option, none, some, List, [], ◌∷◌, ◌++◌, ◌==◌, leb, length,
  if◌then◌else◌,
}
use oxiterm.Common.Texts.{Text, text_eq}
use oxiterm.Common.TextMap.{TextMap, value_of, insert}

pub record CacheKey : Type 0 where
  pub path : Text
  pub width_px : ℕ
  pub height_px : ℕ
  pub frame_idx : Option ℕ

pub data GraphicFormat : Type 0 where
  sixel : List ℕ → GraphicFormat
  kitty : List ℕ → GraphicFormat

pub record CacheValue : Type 0 where
  pub format : GraphicFormat

abbrev pub same_idx : Option ℕ → Option ℕ → Bool
same_idx none none = true
same_idx (some a) (some b) = a == b
same_idx _ _ = false

-- The derived `PartialEq`.
unfoldable pub same_key : CacheKey → CacheKey → Bool
unfolding text_eq
same_key a b =
    text_eq a.path b.path
    && ((a.width_px == b.width_px)
        && ((a.height_px == b.height_px) && same_idx a.frame_idx b.frame_idx))

abbrev pub AssetCache : Type 0
AssetCache = List (CacheKey × CacheValue)

abbrev pub asset_capacity : ℕ
asset_capacity = 100

unfoldable pub lookup_asset : AssetCache → CacheKey → Option CacheValue
unfolding same_key
lookup_asset [] key = none
lookup_asset ((k, v) ∷ cache) key = if same_key k key then some v else lookup_asset cache key

-- `retain` with the other keys.
unfoldable pub retain_others : AssetCache → CacheKey → AssetCache
unfolding same_key
retain_others [] key = []
retain_others ((k, v) ∷ cache) key =
    let rest = retain_others cache key in if same_key k key then rest else (k, v) ∷ rest

abbrev pub pop_front : AssetCache → AssetCache
pop_front [] = []
pop_front (_ ∷ cache) = cache

unfoldable pub insert_asset : AssetCache → CacheKey → CacheValue → AssetCache
unfolding retain_others
insert_asset cache key value =
    let others = retain_others cache key in
    let room = if leb asset_capacity (length others) then pop_front others else others in
    room ++ (key, value) ∷ []

pub record PlaybackState : Type 0 where
  pub start_time : ℕ
  pub hover : Bool
  pub click_active : Bool
  pub click_coord : Option (ℕ × ℕ)
  pub toggled : Bool

abbrev pub new_playback : ℕ → PlaybackState
new_playback now = record {
  start_time = now;
  hover = false;
  click_active = false;
  click_coord = none;
  toggled = false;
}

unfoldable pub get_or_create :
    TextMap PlaybackState → Text → ℕ → PlaybackState × TextMap PlaybackState
unfolding value_of insert
get_or_create states path now = elim (value_of states path) [
  | some state ↦ (state, states)
  | none ↦ (new_playback now, insert states path (new_playback now))
]

unfoldable pub set_hover : TextMap PlaybackState → Text → Bool → TextMap PlaybackState
unfolding value_of insert
set_hover states path hover = elim (value_of states path) [
  | none ↦ states
  | some state ↦ insert states path (record state { hover = hover })
]

unfoldable pub set_click :
    TextMap PlaybackState → Text → Bool → Option (ℕ × ℕ) → TextMap PlaybackState
unfolding value_of insert
set_click states path active coord = elim (value_of states path) [
  | none ↦ states
  | some state ↦ insert states path (record state {
    click_active = active;
    click_coord = coord;
    toggled = if active then not state.toggled else state.toggled;
  })
]
