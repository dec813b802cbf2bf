-- ===== src/Memory/PageInfo/Counting.antt =====
-- `PageInfo::add_ref` and `PageInfo::remove_ref` of src/memory/mod.rs against a plain counter.
use redox_kernel.Common.{
  ℕ, ◌+◌, ◌-◌, ◌^◌, ◌≤◌, ◌<◌, ◌≡◌, ◌⊎◌, inl, inr, ◌∙◌, ap, sym, bit_and, arith, Option, none, some,
  if◌then◌else◌, ◌==◌, leb, true, false, refl, Bool-cases, ok, is_some, subst, add_usize, sub_usize,
}
use redox_kernel.Memory.PageInfo
use redox_kernel.Memory.PageInfo.{
  rc_used_not_free, rc_shared_not_cow, rc_count, rc_max, RefCount, RefKind, cow_kind, shared_kind,
  AddRefError, cow_to_shared, shared_to_cow, rc_overflow, one, shared, cow, from_raw, to_raw,
  refcount, add_ref, add_counted, remove_ref, remove_counted, count_up, count_down, allows_writable,
  writable,
}
use redox_kernel.Memory.PageInfo.Words.{used_bit, count_field}
use redox_kernel.Memory.PageInfo.Raw.{
  IsValid, counted, from_raw_cow, from_raw_shared, to_raw-from_raw, to_raw_cow, to_raw_shared,
}

-- The page is used, with the given count.
abbrev pub Holds : PageInfo.PageInfo → RefCount → Type 0
Holds info r = (info.refcount < 2 ^ 64) × (refcount info ≡ some r)

abbrev pub plus_one : (ℕ → RefCount) → ℕ → Option AddRefError × RefCount
plus_one many n = if leb rc_max n then (some rc_overflow, many n) else (none, many (n + 1))

-- A reference more: the kind must agree, and the count has a limit.
abbrev pub more : RefKind → RefCount → Option AddRefError × RefCount
more cow_kind one = (none, cow 2)
more shared_kind one = (none, shared 2)
more cow_kind (cow n) = plus_one cow n
more shared_kind (shared n) = plus_one shared n
more shared_kind (cow n) = (some cow_to_shared, cow n)
more cow_kind (shared n) = (some shared_to_cow, shared n)

-- A reference less.
abbrev pub less : RefCount → Option RefCount
less one = none
less (cow n) = counted cow (n - 1)
less (shared n) = counted shared (n - 1)

-- The words that hold a cow or a shared count.
cow_word :
    (info : PageInfo.PageInfo) (n : ℕ)
    → Holds info (cow n)
    → (2 ≤ n) × (n < 2 ^ 62) × (info.refcount ≡ n + 2 ^ 63)
unfolding refcount
cow_word info n (word, e) =
    let (valid, shape) = to_raw-from_raw info.refcount (cow n) word e in
    (valid.0, valid.1, ground (arith, shape, to_raw_cow n valid.1))

shared_word :
    (info : PageInfo.PageInfo) (n : ℕ)
    → Holds info (shared n)
    → (2 ≤ n) × (n < 2 ^ 62) × (info.refcount ≡ n + 2 ^ 62 + 2 ^ 63)
unfolding refcount
shared_word info n (word, e) =
    let (valid, shape) = to_raw-from_raw info.refcount (shared n) word e in
    (valid.0, valid.1, ground (arith, shape, to_raw_shared n valid.1))

cow-Holds :
    (info : PageInfo.PageInfo) (n : ℕ)
    → 2 ≤ n
    → n < 2 ^ 62
    → info.refcount ≡ n + 2 ^ 63
    → Holds info (cow n)
unfolding refcount
cow-Holds info n l h e = (omega arith, ap from_raw e ∙ from_raw_cow n h ∙ ground arith)

shared-Holds :
    (info : PageInfo.PageInfo) (n : ℕ)
    → 2 ≤ n
    → n < 2 ^ 62
    → info.refcount ≡ n + 2 ^ 62 + 2 ^ 63
    → Holds info (shared n)
unfolding refcount
shared-Holds info n l h e = (omega arith, ap from_raw e ∙ from_raw_shared n h ∙ ground arith)

-- The outcome of an addition: the error, if any, and the count after it.
abbrev pub Adds : Option AddRefError × PageInfo.PageInfo → Option AddRefError × RefCount → Type 0
Adds (outcome, info) (expected, r) = (outcome ≡ expected) × Holds info r

-- `fetch_add` on a word whose count is `n`
count_up_lem :
    (info : PageInfo.PageInfo) (n flags : ℕ)
    → (flags ≡ 2 ^ 63) ⊎ (flags ≡ 2 ^ 62 + 2 ^ 63)
    → n < 2 ^ 62
    → info.refcount ≡ n + flags
    → count_up info ≡ (
        if leb rc_max n
        then (some rc_overflow, info)
        else (none, record info { refcount = n + 1 + flags }))
unfolding count_up
count_up_lem info n flags f h e =
    let count : rc_count info.refcount ≡ n = ground (arith, count_field info.refcount) in
    elim (Bool-cases (leb rc_max n)) [
      | inl over ↦
          let back : sub_usize (add_usize info.refcount 1) 1 ≡ info.refcount = ground arith in
          rw (count, over, back) refl
      | inr room ↦
          let up : add_usize info.refcount 1 ≡ n + 1 + flags = ground arith in
          rw (count, room, up) refl
    ]

add_counted_lem :
    (info : PageInfo.PageInfo) (r : RefCount) (kind : RefKind)
    → Holds info r
    → Adds (add_counted r kind info) (more kind r)
unfolding add_counted
add_counted_lem info one cow_kind h = (refl, cow-Holds _ 2 (omega arith) (omega arith) refl)
add_counted_lem info one shared_kind h = (refl, shared-Holds _ 2 (omega arith) (omega arith) refl)
add_counted_lem info (cow n) shared_kind h = (refl, h)
add_counted_lem info (shared n) cow_kind h = (refl, h)
add_counted_lem info (cow n) cow_kind h =
    let (two, small, word) = cow_word info n h in
    rw (count_up_lem info n (2 ^ 63) (inl refl) small word) (elim (Bool-cases (leb rc_max n)) [
      | inl over ↦ rw over (refl, h)
      | inr room ↦ rw room (refl, cow-Holds _ (n + 1) (omega arith) (ground arith) refl)
    ])
add_counted_lem info (shared n) shared_kind h =
    let (two, small, word) = shared_word info n h in
    rw (count_up_lem info n (2 ^ 62 + 2 ^ 63) (inr refl) small (omega arith))
      (elim (Bool-cases (leb rc_max n)) [
        | inl over ↦ rw over (refl, h)
        | inr room ↦
            rw room (refl, shared-Holds _ (n + 1) (omega arith) (ground arith) (omega arith))
      ])

-- On a used page `add_ref` does not panic, and counts one more: the first reference more decides
-- the kind of the page, a later one of the other kind fails and so does one above the limit, and a
-- failure keeps the count.
pub add_ref_lem :
    (info : PageInfo.PageInfo) (r : RefCount) (kind : RefKind)
    → Holds info r
    → (result : Option AddRefError × PageInfo.PageInfo) × (add_ref kind info ≡ ok result)
      × Adds result (more kind r)
unfolding add_ref
add_ref_lem info r kind h = (add_counted r kind info, rw h.1 refl, add_counted_lem info r kind h)

-- The outcome of a removal: the count that is left, or the word of a page without references.
abbrev pub Removes : Option RefCount × PageInfo.PageInfo → Option RefCount → Type 0
Removes (left, info) none = (left ≡ none) × (info.refcount ≡ rc_used_not_free)
Removes (left, info) (some r) = (left ≡ some r) × Holds info r

count_down_lem :
    (info : PageInfo.PageInfo) (n flags : ℕ)
    → (flags ≡ 2 ^ 63) ⊎ (flags ≡ 2 ^ 62 + 2 ^ 63)
    → 2 ≤ n
    → n < 2 ^ 62
    → info.refcount ≡ n + flags
    → count_down info ≡ ok (from_raw (n - 1 + flags), record info { refcount = n - 1 + flags })
unfolding count_down
count_down_lem info n flags f two small e =
    let down : sub_usize info.refcount 1 ≡ n - 1 + flags = ground arith in
    let used : bit_and (n - 1 + flags) rc_used_not_free ≡ 2 ^ 63 =
      ground (arith, used_bit (n - 1 + flags)) in
    let apart : (n - 1 + flags == rc_used_not_free - 1) ≡ false = ground arith in
    rw (down, used, apart) refl

Removes-some :
    (info : PageInfo.PageInfo) (left : Option RefCount)
    → info.refcount < 2 ^ 64
    → from_raw info.refcount ≡ left
    → is_some left ≡ true
    → Removes (from_raw info.refcount, info) left
unfolding refcount
Removes-some info none word e some_left = cc
Removes-some info (some r) word e some_left = (e, (word, e))

remove_counted_lem :
    (info : PageInfo.PageInfo) (r : RefCount)
    → Holds info r
    → (result : Option RefCount × PageInfo.PageInfo) × (remove_counted (some r) info ≡ ok result)
      × Removes result (less r)
unfolding remove_counted
remove_counted_lem info one h = (_, refl, (refl, refl))
remove_counted_lem info (cow n) h =
    let (two, small, word) = cow_word info n h in
    let down : PageInfo.PageInfo = record info { refcount = n - 1 + 2 ^ 63 } in
    (
      (from_raw down.refcount, down),
      count_down_lem info n (2 ^ 63) (inl refl) two small word,
      Removes-some down (counted cow (n - 1)) (omega arith) (from_raw_cow (n - 1) (omega arith))
          (ground arith),
    )
remove_counted_lem info (shared n) h =
    let (two, small, word) = shared_word info n h in
    let down : PageInfo.PageInfo = record info { refcount = n - 1 + (2 ^ 62 + 2 ^ 63) } in
    let flags : down.refcount ≡ n - 1 + 2 ^ 62 + 2 ^ 63 = omega arith in
    (
      (from_raw down.refcount, down),
      count_down_lem info n (2 ^ 62 + 2 ^ 63) (inr refl) two small (omega arith),
      Removes-some down (counted shared (n - 1)) (omega arith)
          (ap from_raw flags ∙ from_raw_shared (n - 1) (omega arith)) (ground arith),
    )

-- On a used page `remove_ref` does not panic, and counts one less: the last reference leaves the
-- page used with no count, for the caller to free.
pub remove_ref_lem :
    (info : PageInfo.PageInfo) (r : RefCount)
    → Holds info r
    → (result : Option RefCount × PageInfo.PageInfo) × (remove_ref info ≡ ok result)
      × Removes result (less r)
unfolding remove_ref
remove_ref_lem info r h = rw h.1 (remove_counted_lem info r h)

Holds-IsValid : (info : PageInfo.PageInfo) (r : RefCount) → Holds info r → IsValid r
unfolding refcount
Holds-IsValid info r (word, e) = (to_raw-from_raw info.refcount r word e).0

less-more :
    (kind : RefKind) (r : RefCount)
    → IsValid r
    → (more kind r).0 ≡ none
    → less (more kind r).1 ≡ some r
less-more cow_kind one v e = refl
less-more shared_kind one v e = refl
less-more cow_kind (cow n) v e = ground arith
less-more shared_kind (shared n) v e = ground arith
less-more shared_kind (cow n) v e = cc
less-more cow_kind (shared n) v e = cc

-- On a used page, a reference that was added is taken away again: after an `add_ref` that succeeds,
-- `remove_ref` returns the count from before.
pub remove_ref-add_ref :
    (info info' : PageInfo.PageInfo) (r : RefCount) (kind : RefKind)
    → Holds info r
    → add_ref kind info ≡ ok (none, info')
    → (info'' : PageInfo.PageInfo) × (remove_ref info' ≡ ok (some r, info'')) × Holds info'' r
remove_ref-add_ref info info' r kind h e =
    let ((outcome, info1), added, agrees) = add_ref_lem info r kind h in
    let done : (none, info') ≡ (outcome, info1) = cc in
    let held = subst (λ p. Adds p (more kind r)) (sym done) agrees in
    let ((left, info''), removed, restored) = remove_ref_lem info' (more kind r).1 held.1 in
    let (same, holds) =
      subst (Removes (left, info'')) (less-more kind r (Holds-IsValid info r h) (sym held.0))
        restored in
    (info'', removed ∙ ap (λ o. ok (o, info'')) same, holds)
