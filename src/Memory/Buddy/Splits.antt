-- ===== src/Memory/Buddy/Splits.antt =====
-- The splitting loop of `allocate_p2frame_complex`, src/memory/mod.rs.
use redox_kernel.Common.{
  ℕ, zero, suc, ◌+◌, ◌/◌, ◌^◌, ◌<◌, ◌≤◌, ◌≡◌, ◌≢◌, ◌∙◌, sym, refl, subst, none, ◌==◌, arith,
  Bool-cases, inl, inr, Result, ok,
}
use redox_kernel.Memory.Buddy.{Allocator, split}
use redox_kernel.Memory.Buddy.Siblings.{up}
use redox_kernel.Memory.Buddy.Layout.{Status, Blocks, Block, mark, resize, up-suc}
use redox_kernel.Memory.Buddy.Sizes.{up-coarse}
use redox_kernel.Memory.Buddy.Layout.Status.{free, held}
use redox_kernel.Memory.Buddy.Valid.{IsValid}
use redox_kernel.Memory.Buddy.Halves.{
  halves, split_blocks, split_step, halved, halved_heads, halved_used,
}

-- Every list from `order` to `bound` is empty.
abbrev pub NoBlocks : ℕ → ℕ → Allocator → Type 0
NoBlocks order bound s = (j : ℕ) → order ≤ j → j < bound → s.for_orders j ≡ none

-- What the splitting loop leaves: the frame is held at the order asked for, and the rest of the
-- block is free.
pub record Splits (g : Blocks) (target : ℕ → Status) (order p : ℕ) (s : Allocator)
    (r : Result Allocator) : Type 0 where
  pub blocks : Blocks
  pub state : Allocator
  pub returns : r ≡ ok state
  pub valid : IsValid blocks state
  pub base : Block blocks held order p
  pub outside : (q : ℕ) → up order q ≢ up order p → blocks.status q ≡ target q
  pub known : blocks.known ≡ g.known
  pub used_frames : state.used_frames ≡ s.used_frames

split_status :
    (g : Blocks) (target : ℕ → Status) (k p : ℕ)
    → ((q : ℕ) → up (suc k) q ≢ up (suc k) p → g.status q ≡ target q)
    → ((q : ℕ) → up (suc k) q ≡ up (suc k) p → target q ≡ free)
    → up k (p + 2 ^ k) / 2 ≡ up k p / 2
    → up k (p + 2 ^ k) ≢ up k p
    → (q : ℕ) → up k q ≢ up k p
    → (split_blocks k p g).status q ≡ target q
unfolding mark resize
split_status g target k p out inside twin apart q n =
    elim (Bool-cases (up k q == up k (p + 2 ^ k))) [
      | inl same ↦
          let eq : up k q / 2 ≡ up k p / 2 = ground arith in
          rw same (sym (inside q (up-suc k q ∙ eq ∙ sym (up-suc k p))))
      | inr other ↦ rw other (
          out q λ e.
            let eq : up k q / 2 ≡ up k p / 2 = sym (up-suc k q) ∙ e ∙ up-suc k p in ground arith)
    ]

split_known : (k p : ℕ) (g : Blocks) → (split_blocks k p g).known ≡ g.known
unfolding mark resize
split_known k p g = refl

pub split-Splits :
    (g : Blocks) (target : ℕ → Status) (order count k p : ℕ) (s : Allocator)
    → k ≡ order + count
    → IsValid g s
    → Block g held k p
    → NoBlocks order k s
    → ((q : ℕ) → up k q ≢ up k p → g.status q ≡ target q)
    → ((q : ℕ) → up k q ≡ up k p → target q ≡ free)
    → Splits g target order p s (split p order count s)
unfolding split
split-Splits g target order zero k p s e v b n out inside =
    let eq : k ≡ order = omega arith in
    record {
      blocks = g;
      state = s;
      returns = refl;
      valid = v;
      base = subst (λ m. Block g held m p) eq b;
      outside = subst (λ m. (q : ℕ) → up m q ≢ up m p → g.status q ≡ target q) eq out;
      known = refl;
      used_frames = refl;
    }
split-Splits g target order (suc count) k p s e v b n out inside =
    let j = order + count in
    let eq : k ≡ suc j = omega arith in
    let b' = subst (λ m. Block g held m p) eq b in
    let step = split_step j p g s v b' (n j (omega arith) (omega arith)) in
    let twins = halves j p b'.3 in
    let s1 = halved (p + 2 ^ j) j s in
    let rest =
      split-Splits (split_blocks j p g) target order count j p s1 refl step.1 step.2
        (λ (i : ℕ) a l. halved_heads j (p + 2 ^ j) i s l ∙ n i a (omega arith))
        (split_status g target j p
          (subst (λ m. (q : ℕ) → up m q ≢ up m p → g.status q ≡ target q) eq out)
          (subst (λ m. (q : ℕ) → up m q ≡ up m p → target q ≡ free) eq inside)
          (rw (twins.2, twins.0) (omega arith)) (λ x. ground (arith, twins.2, twins.0)))
        (λ q near.
          inside q
            (subst (λ m. up m q ≡ up m p) (sym eq) (up-coarse (suc j) j p q (omega arith) near))) in
    record {
      blocks = rest.blocks;
      state = rest.state;
      returns = rw step.0 rest.returns;
      valid = rest.valid;
      base = rest.base;
      outside = rest.outside;
      known = rest.known ∙ split_known j p g;
      used_frames = rest.used_frames ∙ halved_used j (p + 2 ^ j) s;
    }
