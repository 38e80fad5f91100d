-- ===== src/Assets/Fifo.antt =====
-- The cache holds what was inserted last.
use oxiterm.Common.{
  ℕ, ◌-◌, ◌≤◌, ◌<◌, ◌≡◌, ◌↔◌, refl, ◌∙◌, Bool, true, false, not, ◌&&◌, ◌||◌, Option, none, some, [],
  ◌∷◌, ◌++◌, arith, leb, length, length-append, if◌then◌else◌, Bool-cases, inl, inr, ==_iff,
}
use oxiterm.Common.Texts.{text_eq_iff, text_eq_self}
use oxiterm.Assets.{
  CacheKey, CacheValue, AssetCache, same_key, same_idx, lookup_asset, retain_others, pop_front,
  insert_asset, asset_capacity,
}

unfoldable pub has_key : AssetCache → CacheKey → Bool
has_key [] key = false
has_key ((k, v) ∷ cache) key = same_key k key || has_key cache key

-- No key stands twice.
unfoldable pub distinct_keys : AssetCache → Bool
unfolding has_key
distinct_keys [] = true
distinct_keys ((k, v) ∷ cache) = not (has_key cache k) && distinct_keys cache

-- At most as many frames as the capacity, each with a key of its own.
pub record IsValid (cache : AssetCache) : Type 0 where
  pub limit : length cache ≤ asset_capacity
  pub keys : distinct_keys cache ≡ true

same_idx_iff : (a b : Option ℕ) → (same_idx a b ≡ true) ↔ (a ≡ b)
same_idx_iff none none = ground arith
same_idx_iff none (some b) = ground arith
same_idx_iff (some a) none = ground arith
same_idx_iff (some a) (some b) = ground (arith, ==_iff a b)

same_key-eq : (a b : CacheKey) → same_key a b ≡ true → a ≡ b
unfolding same_key
same_key-eq a b h =
    let path : a.path ≡ b.path = (text_eq_iff a.path b.path).0 (ground arith) in
    let width : a.width_px ≡ b.width_px = ground arith in
    let height : a.height_px ≡ b.height_px = ground arith in
    let idx : a.frame_idx ≡ b.frame_idx = (same_idx_iff a.frame_idx b.frame_idx).0 (ground arith) in
    cc

same_key_self : (k : CacheKey) → same_key k k ≡ true
unfolding same_key
same_key_self k = ground (arith, text_eq_self k.path, same_idx_iff k.frame_idx k.frame_idx)

same_key_iff : (a b : CacheKey) → (same_key a b ≡ true) ↔ (a ≡ b)
same_key_iff a b = (same_key-eq a b, λ e. rw e (same_key_self b))

has_key-retain :
    (cache : AssetCache) (key j : CacheKey)
    → has_key (retain_others cache key) j ≡ (not (same_key key j) && has_key cache j)
unfolding has_key retain_others
has_key-retain [] key j = ground arith
has_key-retain ((k, v) ∷ cache) key j =
    ground
      (arith, same_key_iff k key, same_key_iff k j, same_key_iff key j, has_key-retain cache key j)

distinct-retain :
    (cache : AssetCache) (key : CacheKey)
    → distinct_keys cache ≡ true
    → distinct_keys (retain_others cache key) ≡ true
unfolding distinct_keys retain_others
distinct-retain [] key h = h
distinct-retain ((k, v) ∷ cache) key h =
    ground (arith, has_key-retain cache key k, distinct-retain cache key)

length-retain :
    (cache : AssetCache) (key : CacheKey) → length (retain_others cache key) ≤ length cache
unfolding retain_others
length-retain [] key = omega arith
length-retain ((k, v) ∷ cache) key = ground (arith, length-retain cache key)

lookup-retain :
    (cache : AssetCache) (key j : CacheKey)
    → same_key j key ≡ false
    → lookup_asset (retain_others cache key) j ≡ lookup_asset cache j
unfolding lookup_asset retain_others
lookup-retain [] key j h = refl
lookup-retain ((k, v) ∷ cache) key j h =
    ground
      (arith, same_key_iff k key, same_key_iff k j, same_key_iff j key, lookup-retain cache key j)

distinct-pop :
    (cache : AssetCache) → distinct_keys cache ≡ true → distinct_keys (pop_front cache) ≡ true
unfolding distinct_keys
distinct-pop [] h = h
distinct-pop ((k, v) ∷ cache) h = ground arith

has_key-pop :
    (cache : AssetCache) (j : CacheKey)
    → has_key cache j ≡ false
    → has_key (pop_front cache) j ≡ false
unfolding has_key
has_key-pop [] j h = h
has_key-pop ((k, v) ∷ cache) j h = ground arith

length-pop : (cache : AssetCache) → length (pop_front cache) ≡ length cache - 1
length-pop [] = omega arith
length-pop (_ ∷ cache) = omega arith

has_key-append :
    (cache : AssetCache) (key j : CacheKey) (v : CacheValue)
    → has_key (cache ++ (key, v) ∷ []) j ≡ (has_key cache j || same_key key j)
unfolding has_key
has_key-append [] key j v = ground arith
has_key-append (_ ∷ cache) key j v = ground (arith, has_key-append cache key j v)

distinct-append :
    (cache : AssetCache) (key : CacheKey) (v : CacheValue)
    → has_key cache key ≡ false
    → distinct_keys cache ≡ true
    → distinct_keys (cache ++ (key, v) ∷ []) ≡ true
unfolding distinct_keys has_key
distinct-append [] key v n h = refl
distinct-append ((k, w) ∷ cache) key v n h = ground (
  arith,
  has_key-append cache key k v,
  same_key_iff k key,
  same_key_iff key k,
  distinct-append cache key v,
)

lookup-append :
    (cache : AssetCache) (key : CacheKey) (v : CacheValue)
    → has_key cache key ≡ false
    → lookup_asset (cache ++ (key, v) ∷ []) key ≡ some v
unfolding lookup_asset has_key
lookup-append [] key v n = ground (arith, same_key_self key)
lookup-append ((k, w) ∷ cache) key v n = ground (arith, lookup-append cache key v)

lookup-append_other :
    (cache : AssetCache) (key j : CacheKey) (v : CacheValue)
    → same_key key j ≡ false
    → lookup_asset (cache ++ (key, v) ∷ []) j ≡ lookup_asset cache j
unfolding lookup_asset
lookup-append_other [] key j v n = ground arith
lookup-append_other ((k, w) ∷ cache) key j v n = ground (arith, lookup-append_other cache key j v)

-- What makes room for one more.
has_room :
    (cache : AssetCache) (key other : CacheKey) (value : CacheValue)
    → IsValid cache
    → has_key cache key ≡ false
    → length cache < asset_capacity
    → same_key key other ≡ false
    → IsValid (cache ++ (key, value) ∷ [])
      × (lookup_asset (cache ++ (key, value) ∷ []) key ≡ some value)
      × (lookup_asset (cache ++ (key, value) ∷ []) other ≡ lookup_asset cache other)
has_room cache key other value p n l h = (
  record {
    limit = omega (arith, length-append cache ((key, value) ∷ []), l);
    keys = distinct-append cache key value n p.keys;
  },
  lookup-append cache key value n,
  lookup-append_other cache key other value h,
)

-- Behind an insertion the cache is valid and holds the new frame. Of the others it holds all if
-- there was room for one more, and else all but the oldest.
pub insert_asset-keeps :
    (cache : AssetCache) (key : CacheKey) (value : CacheValue) (other : CacheKey)
    → IsValid cache
    → same_key other key ≡ false
    → IsValid (insert_asset cache key value)
      × (lookup_asset (insert_asset cache key value) key ≡ some value)
      × (lookup_asset (insert_asset cache key value) other
          ≡ lookup_asset
              (if leb asset_capacity (length (retain_others cache key))
                then pop_front (retain_others cache key)
                else cache)
              other)
unfolding insert_asset
insert_asset-keeps cache key value other p h =
    let others = retain_others cache key in
    let d = distinct-retain cache key p.keys in
    let n : has_key others key ≡ false =
      ground (arith, has_key-retain cache key key, same_key_self key) in
    let h' : same_key key other ≡ false =
      ground (arith, same_key_iff key other, same_key_iff other key) in
    elim (Bool-cases (leb asset_capacity (length others))) [
      | inl e ↦ rw e (
          has_room (pop_front others) key other value
            (record {
              limit = omega (arith, length-pop others, length-retain cache key, p.limit);
              keys = distinct-pop others d;
            })
            (has_key-pop others key n)
            (omega (arith, length-pop others, length-retain cache key, p.limit)) h')
      | inr e ↦
          let (v, own, rest) =
            has_room others key other value
              (record { limit = omega (arith, length-retain cache key, p.limit); keys = d }) n
              (ground (arith, e)) h' in
          rw e (v, own, rest ∙ lookup-retain cache key other h)
    ]
