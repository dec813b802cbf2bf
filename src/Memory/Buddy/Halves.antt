-- ===== src/Memory/Buddy/Halves.antt =====
-- One turn of the splitting loop of `allocate_p2frame_complex`, src/memory/mod.rs.
use redox_kernel.Common.{
  ℕ, suc, ◌+◌, ◌*◌, ◌^◌, ◌<◌, ◌≤◌, ◌≡◌, ◌∙◌, ap, sym, refl, subst, Option, none, some, true, ltb,
  arith, Option-cases, inl, inr, is_some, ok,
}
use native.Mathlib.Nat.{pow-suc, one-le-pow}
use redox_kernel.Memory.PageInfo.{make_free}
use redox_kernel.Memory.Buddy.{
  Allocator, put, write, set_head, set_next, set_prev, next_by, split_off, order_count,
}
use redox_kernel.Memory.Buddy.Siblings.{up}
use redox_kernel.Memory.Buddy.Words.{free_info}
use redox_kernel.Memory.Buddy.Heads.{IsPushed}
use redox_kernel.Memory.Buddy.Layout.{Blocks, Block, mark, resize, up-suc}
use redox_kernel.Memory.Buddy.Layout.Status.{free, held}
use redox_kernel.Memory.Buddy.Marks.{Block-kept}
use redox_kernel.Memory.Buddy.Sizes.{up-multiple, Block-resize_held}
use redox_kernel.Memory.Buddy.Valid.{IsValid}
use redox_kernel.Memory.Buddy.Changes.{IsValid-push, IsValid-resize}

-- The halves of an aligned block of order `suc k`
pub halves :
    (k p : ℕ)
    → up (suc k) p * 2 ^ suc k ≡ p
    → (up k p ≡ 2 * up (suc k) p)
      × (up k p * 2 ^ k ≡ p)
      × (up k (p + 2 ^ k) ≡ 2 * up (suc k) p + 1)
      × (up k (p + 2 ^ k) * 2 ^ k ≡ p + 2 ^ k)
      × (up (suc k) (p + 2 ^ k) ≡ up (suc k) p)
halves k p e =
    let double = ap (λ (x : ℕ). up (suc k) p * x) (pow-suc 2 k) in
    let low = up-multiple k (2 * up (suc k) p) p (omega (arith, e, double)) in
    let high = up-multiple k (2 * up (suc k) p + 1) (p + 2 ^ k) (omega (arith, e, double)) in
    (
      low,
      rw low (omega (arith, e, double)),
      high,
      rw high (omega (arith, e, double)),
      up-suc k (p + 2 ^ k) ∙ rw high (omega arith),
    )

-- The state after the upper half of a block has become a list of its own
unfoldable pub halved : ℕ → ℕ → Allocator → Allocator
halved hi k s = set_head k (some hi) (write hi (free_info none none k) s)

split_off-ok :
    (k p : ℕ) (s : Allocator)
    → p + 2 ^ k < 2 ^ 51
    → is_some (s.infos (p + 2 ^ k)) ≡ true
    → split_off p k s ≡ ok (halved (p + 2 ^ k) k s)
unfolding split_off next_by halved make_free set_next set_prev
split_off-ok k p s l h = elim (Option-cases (s.infos (p + 2 ^ k))) [
  | inl e ↦ ground (arith, h, e)
  | inr (i, e) ↦
      let fits : ltb (p * 2 ^ 12 + 2 ^ k * 2 ^ 12) (2 ^ 64) ≡ true = ground arith in
      rw (fits, e) refl
]

halved-IsPushed :
    (k hi : ℕ) (prev next : ℕ → Option ℕ) (s : Allocator)
    → s.for_orders k ≡ none
    → IsPushed k hi prev next s (halved hi k s)
unfolding halved write set_head put
halved-IsPushed k hi prev next s e = record {
  new_words = ground (arith, e);
  old_words = λ (q : ℕ) h w. ground (arith, e, h);
  others = λ (q : ℕ) n h. ground (arith, n);
  head = λ (o : ℕ). refl;
}

pub halved_heads :
    (k hi j : ℕ) (s : Allocator) → j < k → (halved hi k s).for_orders j ≡ s.for_orders j
unfolding halved write set_head put
halved_heads k hi j s l = ground arith

pub halved_used : (k hi : ℕ) (s : Allocator) → (halved hi k s).used_frames ≡ s.used_frames
unfolding halved write set_head
halved_used k hi s = refl

-- The blocks after the upper half has been split off
abbrev pub split_blocks : ℕ → ℕ → Blocks → Blocks
split_blocks k p g = mark free k (p + 2 ^ k) (resize (suc k) p k g)

pub split_step :
    (k p : ℕ) (g : Blocks) (s : Allocator)
    → IsValid g s
    → Block g held (suc k) p
    → s.for_orders k ≡ none
    → (split_off p k s ≡ ok (halved (p + 2 ^ k) k s))
      × IsValid (split_blocks k p g) (halved (p + 2 ^ k) k s)
      × Block (split_blocks k p g) held k p
split_step k p g s v b e =
    let h = halves k p b.3 in
    let small : suc k < order_count = subst (λ m. m < order_count) b.2 (v.layout.orders p b.0) in
    let sizes : (suc k ≤ suc k) × (k ≤ suc k) × (suc k < order_count) =
      (omega arith, omega arith, small) in
    let whole : (r : ℕ)
        → up (suc k) r ≡ up (suc k) p
        → (g.known r ≡ true) × (g.status r ≡ held) × (g.order r ≡ suc k) =
      λ r near.
        let at_r = v.layout.blocks p r b.0 (subst (λ m. up m r ≡ up m p) (sym b.2) near) in
        (at_r.0, at_r.1 ∙ b.1, at_r.2 ∙ b.2) in
    let hi = whole (p + 2 ^ k) h.4 in
    let hi_frame = v.layout.frames (p + 2 ^ k) hi.0 in
    let resized = IsValid-resize g s (suc k) (suc k) k p v sizes whole in
    let at = Block-resize_held g v.layout (suc k) (suc k) k p sizes whole in
    let low = at p refl h.1 in
    let high = at (p + 2 ^ k) h.4 h.3 in
    let pushed = halved-IsPushed k (p + 2 ^ k) resized.prev resized.next s e in
    (
      split_off-ok k p s hi_frame.1 (v.infos (p + 2 ^ k) ∙ hi.0),
      IsValid-push (resize (suc k) p k g) s (halved (p + 2 ^ k) k s) resized k (p + 2 ^ k) high
          pushed,
      Block-kept (resize (suc k) p k g) resized.layout free held k (p + 2 ^ k) high held k p low
          (λ x. ground (arith, one-le-pow k 2)),
    )
