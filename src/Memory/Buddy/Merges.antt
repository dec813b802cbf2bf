-- ===== src/Memory/Buddy/Merges.antt =====
-- One turn of the merging loop of `deallocate_p2frame`, src/memory/mod.rs.
use redox_kernel.Common.{
  ℕ, suc, ◌*◌, ◌/◌, ◌^◌, ◌<◌, ◌≤◌, ◌≡◌, ◌∙◌, ap, sym, refl, some, true, ◌==◌, if◌then◌else◌, arith,
  Bool-cases, ◌⊎◌, inl, inr, ok,
}
use redox_kernel.Memory.Buddy.{Allocator, unlink, lower, order_count, max_order}
use redox_kernel.Memory.Buddy.Siblings.{up, sibling_number}
use redox_kernel.Memory.Buddy.Words.{free_info}
use redox_kernel.Memory.Buddy.Layout.{Blocks, Block, mark, resize, up-suc}
use redox_kernel.Memory.Buddy.Layout.Status.{free, held}
use redox_kernel.Memory.Buddy.Marks.{Block-new, Block-kept}
use redox_kernel.Memory.Buddy.Sizes.{up-multiple, siblings_whole, Block-resize_held}
use redox_kernel.Memory.Buddy.Valid.{IsValid, IsValid-unlink}
use redox_kernel.Memory.Buddy.Changes.{IsValid-resize}
use redox_kernel.Memory.Buddy.Unlink.{taken, taken-IsUnlinked, unlink-ok}
use redox_kernel.Memory.Buddy.Mates.{lower_found}

-- The blocks after the free sibling at `q` has joined the held block at `p`
abbrev pub merge_blocks : ℕ → ℕ → ℕ → Blocks → Blocks
merge_blocks m p q g = resize (suc m) p (suc m) (mark held m q g)

abbrev pub merge_state : (g : Blocks) (s : Allocator) → ℕ → ℕ → IsValid g s → Allocator
merge_state g s m q v = taken m v.prev v.next (v.prev q) (v.next q) s

module _ (g : Blocks) (s : Allocator) (m p q : ℕ) (v : IsValid g s) (b : Block g held m p)
    (c : Block g free m q) (twin : up m q ≡ sibling_number (up m p)) (small : m < max_order) where
  abbrev pub low : ℕ
  low = up m p / 2 * 2 ^ suc m

  pub unlinked : unlink m (free_info (v.prev q) (v.next q) m) s ≡ ok (merge_state g s m q v)
  unlinked =
      unlink-ok (Block g free) v.prev v.next v.rank s m q v.linked c (v.prev q) (v.next q) refl refl

  IsValid-marked : IsValid (mark held m q g) (merge_state g s m q v)
  IsValid-marked = IsValid-unlink g s (merge_state g s m q v) v m q c (
      taken-IsUnlinked (Block g free) v.prev v.next v.rank s m q v.linked c (v.prev q) (v.next q)
        refl refl)

  whole :
      (r : ℕ)
      → up (suc m) r ≡ up (suc m) p
      → ((mark held m q g).known r ≡ true)
        × ((mark held m q g).status r ≡ held)
        × ((mark held m q g).order r ≡ m)
  whole =
      siblings_whole (mark held m q g) m p q IsValid-marked.layout
        (Block-kept g v.layout held free m q c held m p b (λ e. ground (arith, ap (up m) e, twin)))
        (Block-new g v.layout held free m q c) twin

  sizes : (m ≤ suc m) × (suc m ≤ suc m) × (suc m < order_count)
  sizes = (omega arith, omega arith, omega arith)

  pub merged-IsValid : IsValid (merge_blocks m p q g) (merge_state g s m q v)
  merged-IsValid =
      IsValid-resize (mark held m q g) (merge_state g s m q v) (suc m) m (suc m) p IsValid-marked
        sizes whole

  low_near : up (suc m) low ≡ up (suc m) p
  low_near = up-multiple (suc m) (up m p / 2) low refl ∙ sym (up-suc m p)

  pub merged_block : Block (merge_blocks m p q g) held (suc m) low
  merged_block =
      Block-resize_held (mark held m q g) IsValid-marked.layout (suc m) m (suc m) p sizes whole low
        low_near (rw (up-multiple (suc m) (up m p / 2) low refl) refl)

  pub merged_low : lower m p ≡ some low
  merged_low = lower_found g m p b.3 ((merged-IsValid.layout.frames low merged_block.0).0)

  pub merged_status :
      (r : ℕ) → (merge_blocks m p q g).status r ≡ (if up m r == up m q then held else g.status r)
  unfolding mark resize
  merged_status r = refl

  pub merged_known : (merge_blocks m p q g).known ≡ g.known
  unfolding mark resize
  merged_known = refl

  -- The two halves of the merged block
  pub in_half : (r : ℕ) → up (suc m) r ≡ up (suc m) low → (up m r ≡ up m p) ⊎ (up m r ≡ up m q)
  in_half r e =
      let half : up m r / 2 ≡ up m p / 2 = sym (up-suc m r) ∙ e ∙ low_near ∙ up-suc m p in
      elim (Bool-cases (up m r == up m p)) [
        | inl same ↦ inl (ground arith)
        | inr other ↦ inr (ground arith)
      ]

  pub half_in : (r x : ℕ) → (x ≡ up m p) ⊎ (x ≡ up m q) → up m r ≡ x → up (suc m) r ≡ up (suc m) low
  half_in r x h e =
      let half : up m r / 2 ≡ up m p / 2 = elim h [
        | inl y ↦ ground arith
        | inr y ↦ ground (arith, twin)
      ] in
      up-suc m r ∙ half ∙ sym (up-suc m p) ∙ sym low_near
