-- ===== src/Assets/Tests.antt =====
-- A cache of two frames, one of which is rendered again.
use oxiterm.Common.{◌≡◌, refl, true, false, none, some, [], ◌∷◌, arith, leb, length, if◌then◌else◌}
use oxiterm.Common.Texts.{codes, text_eq}
use oxiterm.Common.TextMap.{value_of, insert}
use oxiterm.Assets.{
  CacheKey, CacheValue, sixel, kitty, AssetCache, lookup_asset, insert_asset, retain_others,
  pop_front, asset_capacity, same_key, get_or_create, set_click,
}
use oxiterm.Assets.Fifo.{IsValid, has_key, distinct_keys, insert_asset-keeps}

abbrev still : CacheKey
still = record { path = codes "a.png"; width_px = 80; height_px = 40; frame_idx = none }

abbrev moving : CacheKey
moving = record { path = codes "a.png"; width_px = 80; height_px = 40; frame_idx = some 0 }

abbrev two_frames : AssetCache
two_frames =
    (still, record { format = sixel (1 ∷ []) }) ∷ (moving, record { format = kitty (2 ∷ []) }) ∷ []

abbrev again : CacheValue
again = record { format = kitty (3 ∷ []) }

two_frames-IsValid : IsValid two_frames
unfolding distinct_keys same_key text_eq has_key
two_frames-IsValid = record { limit = omega arith; keys = refl }

other-key : same_key moving still ≡ false
unfolding same_key text_eq
other-key = refl

insert_asset-keeps_example :
    IsValid (insert_asset two_frames still again)
    × (lookup_asset (insert_asset two_frames still again) still ≡ some again)
    × (lookup_asset (insert_asset two_frames still again) moving
        ≡ lookup_asset
            (if leb asset_capacity (length (retain_others two_frames still))
              then pop_front (retain_others two_frames still)
              else two_frames)
            moving)
insert_asset-keeps_example =
    insert_asset-keeps two_frames still again moving two_frames-IsValid other-key

clicked-twice :
    (get_or_create
      (set_click
        (set_click (get_or_create [] (codes "b.json") 5).1 (codes "b.json") true none)
        (codes "b.json")
        true
        none)
      (codes "b.json")
      9).0.toggled
    ≡ false
unfolding get_or_create set_click value_of insert text_eq
clicked-twice = refl
