-- ===== src/VfsCache.antt =====
-- src/vfs_cache.rs: the cache of path lookups, with times of expiry and a bound on its size. A key
-- is three parts; the strings are lists of their bytes. The map is in the order of `Ord`, which is a
-- parameter of the two operations that insert: the code uses that order for eviction alone.
pub mod Entries
pub mod Lookup
pub mod Size
mod Tests
use redox_kernel.Common.{
  ℕ, zero, suc, ◌+◌, ◌-◌, ◌*◌, ◌/◌, ◌≤◌, List, [], ◌∷◌, Option, none, some, Bool, true, false, ◌&&◌,
  not, leb, ltb, ◌==◌, if◌then◌else◌, length, drop, ◌%◌, ◌^◌,
}

abbrev pub negative_cache_ttl_ns : ℕ
negative_cache_ttl_ns = 5000000000

abbrev pub positive_cache_ttl_ns : ℕ
positive_cache_ttl_ns = 30000000000

abbrev pub max_cache_entries : ℕ
max_cache_entries = 4096

pub data CachedLookup : Type 0 where
  not_found : ℕ → CachedLookup
  found : ℕ → ℕ → CachedLookup

abbrev pub expires_at : CachedLookup → ℕ
expires_at (not_found t) = t
expires_at (found node_id t) = t

abbrev pub is_expired : CachedLookup → ℕ → Bool
is_expired e now = leb (expires_at e) now

abbrev pub is_negative : CachedLookup → Bool
is_negative (not_found t) = true
is_negative (found node_id t) = false

pub record CacheKey : Type 0 where
  pub namespace : ℕ
  pub scheme : List ℕ
  pub path : List ℕ

-- `Eq` of strings and of keys
abbrev pub same_string : List ℕ → List ℕ → Bool
same_string [] [] = true
same_string [] (y ∷ ys) = false
same_string (x ∷ xs) [] = false
same_string (x ∷ xs) (y ∷ ys) = x == y && same_string xs ys

abbrev pub same_key : CacheKey → CacheKey → Bool
same_key a b =
    a.namespace == b.namespace && (same_string a.scheme b.scheme && same_string a.path b.path)

abbrev pub starts_with : List ℕ → List ℕ → Bool
starts_with s [] = true
starts_with [] (p ∷ ps) = false
starts_with (c ∷ cs) (p ∷ ps) = c == p && starts_with cs ps

abbrev pub Entries : Type 0
Entries = List (CacheKey × CachedLookup)

pub record VfsCache : Type 0 where
  pub entries : Entries
  pub hits : ℕ
  pub misses : ℕ
  pub negative_hits : ℕ

abbrev pub new : VfsCache
new = record { entries = []; hits = 0; misses = 0; negative_hits = 0 }

-- The map's operations.
unfoldable pub get_entry : CacheKey → Entries → Option CachedLookup
get_entry k [] = none
get_entry k ((j, e) ∷ r) = if same_key j k then some e else get_entry k r

unfoldable pub remove_entry : CacheKey → Entries → Entries
remove_entry k [] = []
remove_entry k ((j, e) ∷ r) = if same_key j k then r else (j, e) ∷ remove_entry k r

unfoldable pub retain : (CacheKey → CachedLookup → Bool) → Entries → Entries
retain keep [] = []
retain keep ((k, e) ∷ r) = if keep k e then (k, e) ∷ retain keep r else retain keep r

-- The counters are `u64`s.
abbrev pub count : ℕ → ℕ
count n = (n + 1) % 2 ^ 64

unfoldable pub lookup : ℕ → VfsCache → CacheKey → Option CachedLookup × VfsCache
unfolding get_entry remove_entry
lookup now c key = elim (get_entry key c.entries) [
  | none ↦ (none, record c { misses = count c.misses })
  | some entry ↦
      if is_expired entry now
      then (none, record c { entries = remove_entry key c.entries; misses = count c.misses })
      else (
        some entry,
        record c {
          hits = count c.hits;
          negative_hits = (if is_negative entry then count c.negative_hits else c.negative_hits);
        },
      )
]

-- The keys that `keys().take(to_remove)` lists are those of the first entries.
unfoldable pub maybe_evict : ℕ → VfsCache → VfsCache
unfolding retain
maybe_evict now c =
    if leb max_cache_entries (length c.entries)
    then (let live = retain (λ k e. not (is_expired e now)) c.entries in
        if leb max_cache_entries (length live)
        then record c { entries = drop (length live / 4) live }
        else record c { entries = live })
    else c

unfoldable pub invalidate : VfsCache → CacheKey → VfsCache
unfolding remove_entry
invalidate c key = record c { entries = remove_entry key c.entries }

unfoldable pub invalidate_scheme : VfsCache → ℕ → List ℕ → VfsCache
unfolding retain
invalidate_scheme c ns scheme = record c {
  entries = retain (λ k e. not (k.namespace == ns && same_string k.scheme scheme)) c.entries;
}

unfoldable pub invalidate_prefix : VfsCache → ℕ → List ℕ → List ℕ → VfsCache
unfolding retain
invalidate_prefix c ns scheme prefix = record c {
  entries =
      retain
        (λ k e.
          not (k.namespace == ns && (same_string k.scheme scheme && starts_with k.path prefix)))
        c.entries;
}

-- `BTreeMap::insert` at the key's place in the order `less`.
module _ (less : CacheKey → CacheKey → Bool) where
  unfoldable pub insert_entry : CacheKey → CachedLookup → Entries → Entries
  insert_entry k e [] = (k, e) ∷ []
  insert_entry k e ((j, d) ∷ r) =
      if same_key j k
      then (k, e) ∷ r
      else if less k j
      then (k, e) ∷ (j, d) ∷ r
      else (j, d) ∷ insert_entry k e r

  -- `current_time_ns()` is read once for the eviction and once more for the entry.
  unfoldable pub insert_negative : ℕ → ℕ → VfsCache → CacheKey → VfsCache
  unfolding maybe_evict insert_entry
  insert_negative evict_now now c key =
      let c' = maybe_evict evict_now c in
      record c' {
        entries = insert_entry key (not_found ((now + negative_cache_ttl_ns) % 2 ^ 64)) c'.entries;
      }

  unfoldable pub insert_found : ℕ → ℕ → VfsCache → CacheKey → ℕ → VfsCache
  unfolding maybe_evict insert_entry
  insert_found evict_now now c key node_id =
      let c' = maybe_evict evict_now c in
      record c' {
        entries =
            insert_entry key (found node_id ((now + positive_cache_ttl_ns) % 2 ^ 64)) c'.entries;
      }
