-- ===== src/Memory/Buddy/Mates.antt =====
-- The sibling that the merging loop of `deallocate_p2frame` finds, src/memory/mod.rs.
use redox_kernel.Common.{
  ℕ, zero, suc, ◌*◌, ◌/◌, ◌^◌, ◌<◌, ◌≤◌, ◌≡◌, ◌≢◌, ◌∙◌, ap, sym, refl, subst, Option, none, some,
  true, false, ◌==◌, ltb, if◌then◌else◌, arith, Bool-cases, ◌⊎◌, inl, inr, is_some, bit_and,
}
use native.Mathlib.Nat.{one-le-pow}
use redox_kernel.Memory.PageInfo.{PageInfo, as_free, rc_used_not_free}
use redox_kernel.Memory.Buddy.{Allocator, sibling, lower, mergeable, max_order, order_count}
use redox_kernel.Memory.Buddy.P2Frame
use redox_kernel.Memory.Buddy.Siblings.{up, sibling_number, sibling_lem, lower_lem}
use redox_kernel.Memory.Buddy.Words.{free_info, order-new, as_free-free_info}
use redox_kernel.Memory.Buddy.Layout.{Status, Blocks, Block, Layout, up-suc}
use redox_kernel.Memory.Buddy.Layout.Status.{free, used, held}
use redox_kernel.Memory.Buddy.Sizes.{up-coarse}
use redox_kernel.Memory.Buddy.Valid.{IsValid}
use redox_kernel.Memory.Buddy.Unlink.{next-Linkable, prev-Linkable}
use redox_kernel.Memory.Buddy.Halves.{halves}

as_free-cases : (i : PageInfo) → (as_free i ≡ none) ⊎ (as_free i ≡ some (i.refcount, i.next))
unfolding as_free
as_free-cases i = elim (Bool-cases (bit_and i.refcount rc_used_not_free == rc_used_not_free)) [
  | inl h ↦ inl (rw h refl)
  | inr h ↦ inr (rw h refl)
]

Status-cases : (st : Status) → (st ≡ free) ⊎ (st ≡ used) ⊎ (st ≡ held)
Status-cases free = inl refl
Status-cases used = inr (inl refl)
Status-cases held = inr (inr refl)

pub product_zero : (n P : ℕ) → 1 ≤ P → n * P ≡ 0 → n ≡ 0
product_zero zero P h e = refl
product_zero (suc n) P h e = absurd (omega arith)

-- What `mergeable` finds out about the sibling
mergeable-some :
    (m : ℕ) (o : Option PageInfo) (info : PageInfo)
    → mergeable m o ≡ some info
    → (o ≡ some info)
      × (as_free info ≡ some (info.refcount, info.next))
      × (ltb (P2Frame.order info.next) m ≡ false)
unfolding mergeable
mergeable-some m none info e = ground (arith, e)
mergeable-some m (some i) info e = elim (as_free-cases i) [
  | inl h ↦ ground (arith, e, h)
  | inr h ↦ elim (Bool-cases (ltb (P2Frame.order i.next) m)) [
    | inl less ↦ ground (arith, e, h, less)
    | inr more ↦
        let same : some i ≡ some info = ground (arith, e, h, more) in
        let eq : i ≡ info = ground (arith, same) in
        (
          same,
          subst (λ x. as_free x ≡ some (x.refcount, x.next)) eq h,
          subst (λ x. ltb (P2Frame.order x.next) m ≡ false) eq more,
        )
  ]
]

aligned_below : (o m p : ℕ) → o ≤ m → up m p * 2 ^ m ≡ p → up o p * 2 ^ o ≡ p
aligned_below o zero p l e = let eq : 0 ≡ o = omega arith in subst (λ k. up k p * 2 ^ k ≡ p) eq e
aligned_below o (suc m) p l e = elim (Bool-cases (o == suc m)) [
  | inl same ↦ let eq : suc m ≡ o = ground arith in subst (λ k. up k p * 2 ^ k ≡ p) eq e
  | inr other ↦ aligned_below o m p (ground arith) (halves m p e).1
]

-- The sibling of a block in the hands of the allocator
pub sibling_found :
    (g : Blocks) (m p : ℕ)
    → Layout g
    → Block g held m p
    → m < max_order
    → sibling m p ≡ some (sibling_number (up m p) * 2 ^ m)
sibling_found g m p layout b l =
    let u = up m p in
    let here : sibling m p
        ≡ (if sibling_number u * 2 ^ m == 0 then none else some (sibling_number u * 2 ^ m)) =
      ap (sibling m) (sym b.3) ∙ sibling_lem m u in
    elim (Bool-cases (sibling_number u * 2 ^ m == 0)) [
      | inr other ↦ here ∙ rw other refl
      | inl zero_sibling ↦
          let first : u ≡ 1 =
            let none_left =
              product_zero (sibling_number u) (2 ^ m) (one-le-pow m 2 (omega arith))
                (ground arith) in
            ground arith in
          let corner : p ≡ 2 ^ m = sym b.3 ∙ ap (λ x. x * 2 ^ m) first ∙ omega arith in
          ground (arith, layout.corners m l, b.0, ap g.known corner)
    ]

-- The lower of the two halves
pub lower_found :
    (g : Blocks) (m p : ℕ)
    → up m p * 2 ^ m ≡ p
    → 0 < up m p / 2 * 2 ^ suc m
    → lower m p ≡ some (up m p / 2 * 2 ^ suc m)
lower_found g m p e l = ap (lower m) (sym e) ∙ lower_lem m (up m p) ∙ ground arith

-- A free block of the order can be merged.
pub mergeable-Block :
    (g : Blocks) (s : Allocator) (m q : ℕ)
    → IsValid g s
    → Block g free m q
    → mergeable m (s.infos q) ≢ none
unfolding mergeable
mergeable-Block g s m q v b e =
    let small : m < order_count = subst (λ o. o < order_count) b.2 (v.layout.orders q b.0) in
    let before = prev-Linkable (Block g free) v.prev v.next v.rank s m q v.linked b m q b in
    let after = next-Linkable (Block g free) v.prev v.next v.rank s m q v.linked b m q b in
    let words = v.linked.words m q b in
    let read = as_free-free_info (v.prev q) (v.next q) m before (omega arith) in
    let order = order-new (v.next q) m after (omega arith) in
    let found : mergeable m (some (free_info (v.prev q) (v.next q) m))
        ≡ some (free_info (v.prev q) (v.next q) m) =
      rw (mergeable, read) (rw order (ground arith)) in
    ground (arith, e, words, found)

-- The sibling that can be merged is a free block of the same order.
pub sibling-Block :
    (g : Blocks) (s : Allocator) (m p q : ℕ) (info : PageInfo) (v : IsValid g s)
    → Block g held m p
    → ((r : ℕ) → g.known r ≡ true → g.status r ≡ held → up m r ≡ up m p)
    → up m q ≡ sibling_number (up m p)
    → up m q * 2 ^ m ≡ q
    → mergeable m (s.infos q) ≡ some info
    → Block g free m q × (info ≡ free_info (v.prev q) (v.next q) m)
sibling-Block g s m p q info v b only twin aligned e =
    let found = mergeable-some m (s.infos q) info e in
    let known : g.known q ≡ true = sym (v.infos q) ∙ ap is_some found.0 in
    let o = g.order q in
    let size : o ≤ m = elim (Bool-cases (ltb m o)) [
      | inr small ↦ ground arith
      | inl large ↦
          let pair : up (suc m) p ≡ up (suc m) q =
            up-suc m p ∙ rw twin (omega arith) ∙ sym (up-suc m q) in
          let near = up-coarse o (suc m) q p (ground arith) pair in
          let at_p = v.layout.blocks q p known near in ground (arith, at_p.2, b.2)
    ] in
    let base = aligned_below o m q size aligned in
    elim (Status-cases (g.status q)) [
      | inr (inl h) ↦ ground (arith, v.marks o q info (known, h, refl, base) found.0, found.1)
      | inr (inr h) ↦ ground (arith, only q known h, twin)
      | inl h ↦
          let words : info ≡ free_info (v.prev q) (v.next q) o =
            ground (arith, found.0, v.linked.words o q (known, h, refl, base)) in
          let link =
            next-Linkable (Block g free) v.prev v.next v.rank s o q v.linked (known, h, refl, base)
              o q (known, h, refl, base) in
          let order = order-new (v.next q) o link (ground (arith, v.layout.orders q known)) in
          let enough : ltb o m ≡ false =
            subst (λ k. ltb k m ≡ false) order
              (subst (λ i. ltb (P2Frame.order i.next) m ≡ false) words found.2) in
          let eq : o ≡ m = ground arith in
          ((known, h, eq, aligned), subst (λ k. info ≡ free_info (v.prev q) (v.next q) k) eq words)
    ]
