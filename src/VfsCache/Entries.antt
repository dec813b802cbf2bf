-- ===== src/VfsCache/Entries.antt =====
-- The entries of the cache in src/vfs_cache.rs as a map from keys.
use redox_kernel.Common.{
  ℕ, ◌+◌, ◌≤◌, ◌≡◌, inl, inr, refl, ap, arith, List, [], ◌∷◌, none, some, Bool, true, if◌then◌else◌,
  length, Bool-cases,
}
use redox_kernel.VfsCache.{
  CachedLookup, CacheKey, Entries, same_string, same_key, get_entry, remove_entry, retain,
  insert_entry,
}

same_string-eq : (a b : List ℕ) → same_string a b ≡ true → a ≡ b
same_string-eq [] [] e = refl
same_string-eq [] (y ∷ ys) e = cc
same_string-eq (x ∷ xs) [] e = cc
same_string-eq (x ∷ xs) (y ∷ ys) e = ground (arith, same_string-eq xs ys)

pub same_string_refl : (a : List ℕ) → same_string a a ≡ true
same_string_refl [] = refl
same_string_refl (x ∷ xs) = ground (arith, same_string_refl xs)

pub same_key-eq : (a b : CacheKey) → same_key a b ≡ true → a ≡ b
same_key-eq a b e = ground (arith, same_string-eq a.scheme b.scheme, same_string-eq a.path b.path)

pub same_key_refl : (a : CacheKey) → same_key a a ≡ true
same_key_refl a = ground (arith, same_string_refl a.scheme, same_string_refl a.path)

pub get_entry-insert_entry :
    (less : CacheKey → CacheKey → Bool) (k j : CacheKey) (e : CachedLookup) (m : Entries)
    → get_entry j (insert_entry less k e m) ≡ (if same_key k j then some e else get_entry j m)
unfolding get_entry insert_entry
get_entry-insert_entry less k j e [] = refl
get_entry-insert_entry less k j e ((i, d) ∷ m) = elim (Bool-cases (same_key i k)) [
  | inl same ↦ let eq : i ≡ k = same_key-eq i k same in rw (same, eq) (ground arith)
  | inr other ↦ ground (
    arith,
    get_entry-insert_entry less k j e m,
    other,
    same_key-eq k j,
    same_key-eq i j,
    same_key_refl k,
  )
]

-- A test of the key alone keeps all entries of a key or none.
pub get_entry-retain :
    (keep : CacheKey → Bool) (j : CacheKey) (m : Entries)
    → get_entry j (retain (λ k e. keep k) m) ≡ (if keep j then get_entry j m else none)
unfolding get_entry retain
get_entry-retain keep j [] = ground arith
get_entry-retain keep j ((i, d) ∷ m) = elim (Bool-cases (same_key i j)) [
  | inl same ↦
      let eq : i ≡ j = same_key-eq i j same in
      ground (arith, same, get_entry-retain keep j m, ap keep eq)
  | inr other ↦ ground (arith, get_entry-retain keep j m, other)
]

pub length-retain :
    (keep : CacheKey → CachedLookup → Bool) (m : Entries) → length (retain keep m) ≤ length m
unfolding retain
length-retain keep [] = omega arith
length-retain keep ((k, e) ∷ m) = ground (arith, length-retain keep m)

pub length-remove_entry : (k : CacheKey) (m : Entries) → length (remove_entry k m) ≤ length m
unfolding remove_entry
length-remove_entry k [] = omega arith
length-remove_entry k ((j, e) ∷ m) = ground (arith, length-remove_entry k m)

pub length-insert_entry :
    (less : CacheKey → CacheKey → Bool) (k : CacheKey) (e : CachedLookup) (m : Entries)
    → length (insert_entry less k e m) ≤ length m + 1
unfolding insert_entry
length-insert_entry less k e [] = omega arith
length-insert_entry less k e ((j, d) ∷ m) = ground (arith, length-insert_entry less k e m)
