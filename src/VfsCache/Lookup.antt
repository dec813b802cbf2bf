-- ===== src/VfsCache/Lookup.antt =====
-- What `lookup` of src/vfs_cache.rs returns after the other operations.
use redox_kernel.Common.{
  ℕ, ◌+◌, ◌%◌, ◌^◌, ◌≡◌, inl, inr, ◌∙◌, arith, List, Option, none, some, Bool, ◌&&◌, not, leb, ◌==◌,
  if◌then◌else◌, Bool-cases, Option-cases,
}
use redox_kernel.VfsCache.{
  VfsCache, CachedLookup, not_found, found, is_expired, CacheKey, same_string, same_key,
  starts_with, get_entry, lookup, maybe_evict, insert_found, insert_negative, invalidate_scheme,
  invalidate_prefix, positive_cache_ttl_ns, negative_cache_ttl_ns,
}
use redox_kernel.VfsCache.Entries.{get_entry-insert_entry, get_entry-retain}

-- The entry that a lookup sees.
abbrev pub live : ℕ → Option CachedLookup → Option CachedLookup
live now none = none
live now (some e) = if is_expired e now then none else some e

pub lookup-live :
    (now : ℕ) (c : VfsCache) (k : CacheKey) → (lookup now c k).0 ≡ live now (get_entry k c.entries)
unfolding lookup
lookup-live now c k = elim (Option-cases (get_entry k c.entries)) [
  | inl missing ↦ ground (arith, missing)
  | inr (e, hit) ↦ elim (Bool-cases (is_expired e now)) [
    | inl old ↦ ground (arith, hit, old)
    | inr fresh ↦ ground (arith, hit, fresh)
  ]
]

-- After `insert_found`, a lookup of the same key returns the node until 30 seconds have passed and
-- nothing from then on; after `insert_negative` it returns `NotFound` for 5 seconds. A lookup of any
-- other key returns what it does after the eviction. The expiry is a `u64`.
pub lookup-insert :
    (less : CacheKey → CacheKey → Bool) (evict_now now later node_id : ℕ) (c : VfsCache)
    (k j : CacheKey)
    → let until = (now + positive_cache_ttl_ns) % 2 ^ 64 in
      let until_negative = (now + negative_cache_ttl_ns) % 2 ^ 64 in
      let kept = (lookup later (maybe_evict evict_now c) j).0 in
      ((lookup later (insert_found less evict_now now c k node_id) j).0 ≡ (
        if same_key k j
        then (if leb until later then none else some (found node_id until))
        else kept))
      × ((lookup later (insert_negative less evict_now now c k) j).0 ≡ (
          if same_key k j
          then (if leb until_negative later then none else some (not_found until_negative))
          else kept))
unfolding insert_found insert_negative
lookup-insert less evict_now now later node_id c k j =
    let c' = maybe_evict evict_now c in
    let until = (now + positive_cache_ttl_ns) % 2 ^ 64 in
    let until_negative = (now + negative_cache_ttl_ns) % 2 ^ 64 in
    (
      lookup-live later (insert_found less evict_now now c k node_id) j
          ∙ ground (
            arith,
            get_entry-insert_entry less k j (found node_id until) c'.entries,
            lookup-live later c' j,
          ),
      lookup-live later (insert_negative less evict_now now c k) j
          ∙ ground (
            arith,
            get_entry-insert_entry less k j (not_found until_negative) c'.entries,
            lookup-live later c' j,
          ),
    )

-- After `invalidate_scheme` and `invalidate_prefix` a lookup finds no key of the scheme, or none of
-- it with the prefix, and any other key as before.
pub lookup-invalidate :
    (now ns : ℕ) (scheme prefix : List ℕ) (c : VfsCache) (k : CacheKey)
    → let in_scheme = k.namespace == ns && same_string k.scheme scheme in
      ((lookup now (invalidate_scheme c ns scheme) k).0
        ≡ (if in_scheme then none else (lookup now c k).0))
      × ((lookup now (invalidate_prefix c ns scheme prefix) k).0
          ≡ (if in_scheme && starts_with k.path prefix then none else (lookup now c k).0))
unfolding invalidate_scheme invalidate_prefix
lookup-invalidate now ns scheme prefix c k =
    let other : CacheKey → Bool = λ j. not (j.namespace == ns && same_string j.scheme scheme) in
    let elsewhere : CacheKey → Bool =
      λ j. not (j.namespace == ns && (same_string j.scheme scheme && starts_with j.path prefix)) in
    (
      lookup-live now (invalidate_scheme c ns scheme) k
          ∙ ground (arith, get_entry-retain other k c.entries, lookup-live now c k),
      lookup-live now (invalidate_prefix c ns scheme prefix) k
          ∙ ground (arith, get_entry-retain elsewhere k c.entries, lookup-live now c k),
    )
