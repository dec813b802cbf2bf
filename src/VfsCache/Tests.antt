-- ===== src/VfsCache/Tests.antt =====
-- The cache of src/vfs_cache.rs with one entry; the order of keys is that of their namespaces.
use redox_kernel.Common.{◌≡◌, refl, [], ◌∷◌, none, some, Bool, ltb, leb, if◌then◌else◌}
use redox_kernel.VfsCache
use redox_kernel.VfsCache.{
  VfsCache, CacheKey, found, not_found, lookup, maybe_evict, insert_found, insert_negative,
  invalidate, invalidate_scheme, invalidate_prefix, same_key, same_string, starts_with,
  max_cache_entries, positive_cache_ttl_ns, negative_cache_ttl_ns,
}
use redox_kernel.VfsCache.Lookup.{lookup-insert, lookup-invalidate}

abbrev by_namespace : CacheKey → CacheKey → Bool
by_namespace a b = ltb a.namespace b.namespace

abbrev key : CacheKey
key = record { namespace = 1; scheme = 102 ∷ []; path = 97 ∷ 98 ∷ [] }

abbrev cache : VfsCache.VfsCache
cache = record VfsCache.new { entries = (key, found 7 100) ∷ [] }

finds_live : (lookup 99 cache key).0 ≡ some (found 7 100)
unfolding lookup VfsCache.get_entry
finds_live = refl

lookup-insert_example :
    ((lookup 60 (insert_found by_namespace 50 50 cache key 8) key).0 ≡ (
      if same_key key key
      then (if leb 30000000050 60 then none else some (found 8 30000000050))
      else (lookup 60 (maybe_evict 50 cache) key).0))
    × ((lookup 60 (insert_negative by_namespace 50 50 cache key) key).0 ≡ (
        if same_key key key
        then (if leb 5000000050 60 then none else some (not_found 5000000050))
        else (lookup 60 (maybe_evict 50 cache) key).0))
lookup-insert_example = lookup-insert by_namespace 50 50 60 8 cache key key

lookup-invalidate_example :
    ((lookup 60 (invalidate_scheme cache 1 (102 ∷ [])) key).0 ≡ none)
    × ((lookup 60 (invalidate_prefix cache 1 (102 ∷ []) (98 ∷ [])) key).0 ≡ (lookup 60 cache key).0)
lookup-invalidate_example = lookup-invalidate 60 1 (102 ∷ []) (98 ∷ []) cache key
