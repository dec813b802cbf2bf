-- ===== src/VfsCache/Size.antt =====
-- The bound on the size of the cache in src/vfs_cache.rs.
use redox_kernel.Common.{
  ℕ, ◌/◌, ◌≤◌, ◌<◌, inl, inr, arith, List, Bool, not, leb, length, Bool-cases, length-drop,
}
use redox_kernel.VfsCache.{
  VfsCache, CacheKey, is_expired, retain, maybe_evict, insert_found, insert_negative, lookup,
  invalidate, invalidate_scheme, invalidate_prefix, max_cache_entries,
}
use redox_kernel.VfsCache.Entries.{length-retain, length-remove_entry, length-insert_entry}

abbrev pub size : VfsCache → ℕ
size c = length c.entries

-- An eviction makes room for one more entry.
maybe_evict-lt :
    (now : ℕ) (c : VfsCache)
    → size c ≤ max_cache_entries
    → size (maybe_evict now c) < max_cache_entries
unfolding maybe_evict
maybe_evict-lt now c h =
    let kept = retain (λ k e. not (is_expired e now)) c.entries in
    let fewer = length-retain (λ k e. not (is_expired e now)) c.entries in
    elim (Bool-cases (leb max_cache_entries (length c.entries))) [
      | inr room ↦ ground (arith, room)
      | inl full ↦ elim (Bool-cases (leb max_cache_entries (length kept))) [
        | inr some_expired ↦ ground (arith, full, some_expired)
        | inl still ↦
            rw (full, still) (ground (arith, fewer, length-drop {0} (length kept / 4) kept))
      ]
    ]

-- From a cache within its maximum size, each operation leaves a cache within it.
pub size_bound :
    (less : CacheKey → CacheKey → Bool) (evict_now now node_id ns : ℕ) (scheme prefix : List ℕ)
    (c : VfsCache) (k : CacheKey)
    → size c ≤ max_cache_entries
    → (size (insert_found less evict_now now c k node_id) ≤ max_cache_entries)
      × (size (insert_negative less evict_now now c k) ≤ max_cache_entries)
      × (size (lookup now c k).1 ≤ max_cache_entries)
      × (size (invalidate c k) ≤ max_cache_entries)
      × (size (invalidate_scheme c ns scheme) ≤ max_cache_entries)
      × (size (invalidate_prefix c ns scheme prefix) ≤ max_cache_entries)
unfolding insert_found insert_negative lookup invalidate invalidate_scheme invalidate_prefix
size_bound less evict_now now node_id ns scheme prefix c k h =
    let room = maybe_evict-lt evict_now c h in
    let c' = maybe_evict evict_now c in
    (
      omega (arith, length-insert_entry less k _ c'.entries),
      omega (arith, length-insert_entry less k _ c'.entries),
      ground (arith, length-remove_entry k c.entries),
      omega (arith, length-remove_entry k c.entries),
      omega (arith, length-retain _ c.entries),
      omega (arith, length-retain _ c.entries),
    )
