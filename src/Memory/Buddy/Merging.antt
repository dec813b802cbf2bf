-- ===== src/Memory/Buddy/Merging.antt =====
-- The merging loop of `deallocate_p2frame`, src/memory/mod.rs.
use redox_kernel.Common.{
  ℕ, zero, suc, ◌+◌, ◌*◌, ◌^◌, ◌<◌, ◌≡◌, ◌≢◌, ◌∙◌, ap, sym, refl, subst, none, some, true, ◌==◌,
  arith, Bool-cases, Option-cases, inl, inr, ◌⊎◌, Result, ok,
}
use redox_kernel.Memory.PageInfo.{PageInfo}
use redox_kernel.Memory.Buddy.{Allocator, unlink, sibling, lower, mergeable, merge, max_order}
use redox_kernel.Memory.Buddy.Siblings.{up, sibling_number}
use redox_kernel.Memory.Buddy.Layout.{Status, Blocks, Block}
use redox_kernel.Memory.Buddy.Layout.Status.{free, held}
use redox_kernel.Memory.Buddy.Sizes.{up-multiple}
use redox_kernel.Memory.Buddy.Valid.{IsValid}
use redox_kernel.Memory.Buddy.Unlink.{taken_used}
use redox_kernel.Memory.Buddy.Mates.{sibling_found, sibling-Block, mergeable-Block}
use redox_kernel.Memory.Buddy.Merges.{
  merge_blocks, merge_state, low, unlinked, merged-IsValid, merged_block, merged_low, merged_status,
  merged_known, in_half, half_in,
}

-- What the merging loop leaves: a held block and around it what `target` says, which is all free
-- in the block itself. It holds the block that the loop began with, and cannot be merged further.
pub record Merged (g : Blocks) (target : ℕ → Status) (m p : ℕ) (s : Allocator)
    (r : Result ((ℕ × ℕ) × Allocator)) : Type 0 where
  pub frame : ℕ
  pub order : ℕ
  pub blocks : Blocks
  pub state : Allocator
  pub returns : r ≡ ok ((frame, order), state)
  pub valid : IsValid blocks state
  pub base : Block blocks held order frame
  pub outside : (q : ℕ) → up order q ≢ up order frame → blocks.status q ≡ target q
  pub inside : (q : ℕ) → up order q ≡ up order frame → target q ≡ free
  pub around : (q : ℕ) → up m q ≡ up m p → up order q ≡ up order frame
  pub stopped :
      (order ≡ max_order)
      ⊎ (¬ Block blocks free order (sibling_number (up order frame) * 2 ^ order))
  pub known : blocks.known ≡ g.known
  pub used_frames : state.used_frames ≡ s.used_frames

merge-steps :
    (count m p q lo : ℕ) (info cur : PageInfo) (s s1 : Allocator)
    → sibling m p ≡ some q
    → s.infos p ≡ some cur
    → mergeable m (s.infos q) ≡ some info
    → unlink m info s ≡ ok s1
    → lower m p ≡ some lo
    → merge (suc count) m p s ≡ merge count (suc m) lo s1
unfolding merge
merge-steps count m p q lo info cur s s1 a b c d e = rw (a, b, c, d, e) refl

merge-stops :
    (count m p q : ℕ) (cur : PageInfo) (s : Allocator)
    → sibling m p ≡ some q
    → s.infos p ≡ some cur
    → mergeable m (s.infos q) ≡ none
    → merge (suc count) m p s ≡ ok ((p, m), s)
unfolding merge
merge-stops count m p q cur s a b c = rw (a, b, c) refl

merge_ends : (m p : ℕ) (s : Allocator) → merge 0 m p s ≡ ok ((p, m), s)
unfolding merge
merge_ends m p s = refl

Merged-here :
    (g : Blocks) (target : ℕ → Status) (m p : ℕ) (s : Allocator) (r : Result ((ℕ × ℕ) × Allocator))
    → IsValid g s
    → Block g held m p
    → ((q : ℕ) → up m q ≢ up m p → g.status q ≡ target q)
    → ((q : ℕ) → up m q ≡ up m p → target q ≡ free)
    → r ≡ ok ((p, m), s)
    → (m ≡ max_order) ⊎ (¬ Block g free m (sibling_number (up m p) * 2 ^ m))
    → Merged g target m p s r
Merged-here g target m p s r v b out inside e stop = record {
  frame = p;
  order = m;
  blocks = g;
  state = s;
  returns = e;
  valid = v;
  base = b;
  outside = out;
  inside = inside;
  around = λ q h. h;
  stopped = stop;
  known = refl;
  used_frames = refl;
}

pub merge-Merged :
    (g : Blocks) (target : ℕ → Status) (count m p : ℕ) (s : Allocator)
    → m + count ≡ max_order
    → IsValid g s
    → Block g held m p
    → ((q : ℕ) → g.known q ≡ true → g.status q ≡ held → up m q ≡ up m p)
    → ((q : ℕ) → up m q ≢ up m p → g.status q ≡ target q)
    → ((q : ℕ) → up m q ≡ up m p → target q ≡ free)
    → Merged g target m p s (merge count m p s)
merge-Merged g target zero m p s e v b only out inside =
    Merged-here g target m p s (merge 0 m p s) v b out inside (merge_ends m p s) (inl (omega arith))
merge-Merged g target (suc count) m p s e v b only out inside =
    let q = sibling_number (up m p) * 2 ^ m in
    let small : m < max_order = omega arith in
    let found = sibling_found g m p v.layout b small in
    let twin : up m q ≡ sibling_number (up m p) = up-multiple m (sibling_number (up m p)) q refl in
    let aligned : up m q * 2 ^ m ≡ q = ap (λ u. u * 2 ^ m) twin in
    elim (Option-cases (s.infos p)) [
      | inl h ↦ ground (arith, h, v.infos p, b.0)
      | inr (cur, here) ↦ elim (Option-cases (mergeable m (s.infos q))) [
        | inl h ↦
            Merged-here g target m p s (merge (suc count) m p s) v b out inside
              (merge-stops count m p q cur s found here h) (inr λ c. mergeable-Block g s m q v c h)
        | inr (info, h) ↦
            let mate = sibling-Block g s m p q info v b only twin aligned h in
            let c = mate.0 in
            let lo = low g s m p q v b c twin small in
            let near = half_in g s m p q v b c twin small in
            let halves_of = in_half g s m p q v b c twin small in
            let status = merged_status g s m p q v b c twin small in
            let g1 = merge_blocks m p q g in
            let s1 = merge_state g s m q v in
            let rest =
              merge-Merged g1 target count (suc m) lo s1 (omega arith)
                (merged-IsValid g s m p q v b c twin small)
                (merged_block g s m p q v b c twin small)
                (λ r k h. elim (Bool-cases (up m r == up m q)) [
                  | inl same ↦ near r (up m q) (inr refl) (ground arith)
                  | inr other ↦ near r (up m p) (inl refl) (
                      only r (subst (λ f. f r ≡ true) (merged_known g s m p q v b c twin small) k)
                        (ground (arith, sym (status r) ∙ h, other)))
                ])
                (λ r far. status r ∙ elim (Bool-cases (up m r == up m q)) [
                  | inl same ↦ absurd (far (near r (up m q) (inr refl) (ground arith)))
                  | inr other ↦ rw other (out r (λ h. far (near r (up m p) (inl refl) h)))
                ])
                (λ r n. elim (halves_of r n) [
                  | inl h ↦ inside r h
                  | inr h ↦
                      sym (out r (λ x. ground (arith, sym x ∙ h, twin)))
                      ∙ (v.layout.blocks q r c.0 (subst (λ k. up k r ≡ up k q) (sym c.2) h)).1
                      ∙ c.1
                ]) in
            record {
              frame = rest.frame;
              order = rest.order;
              blocks = rest.blocks;
              state = rest.state;
              returns =
                  merge-steps count m p q lo info cur s s1 found here h
                    (subst (λ i. unlink m i s ≡ ok s1) (sym mate.1)
                      (unlinked g s m p q v b c twin small))
                    (merged_low g s m p q v b c twin small)
                  ∙ rest.returns;
              valid = rest.valid;
              base = rest.base;
              outside = rest.outside;
              inside = rest.inside;
              around = λ r h. rest.around r (near r (up m p) (inl refl) h);
              stopped = rest.stopped;
              known = rest.known ∙ merged_known g s m p q v b c twin small;
              used_frames = rest.used_frames ∙ taken_used m v.prev v.next (v.prev q) (v.next q) s;
            }
      ]
    ]
