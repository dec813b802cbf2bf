-- ===== src/Memory/Buddy/Marks.antt =====
-- Which blocks there are after a block of src/memory/mod.rs got another status.
use redox_kernel.Common.{
  ℕ, ◌*◌, ◌^◌, ◌≡◌, ◌≢◌, ◌∙◌, ap, sym, subst, ◌==◌, arith, Bool-cases, ◌⊎◌, inl, inr,
}
use redox_kernel.Memory.Buddy.Siblings.{up}
use redox_kernel.Memory.Buddy.Layout.{Status, Blocks, Block, Layout, mark, base_unique}

module _ (g : Blocks) (layout : Layout g) (st st0 : Status) (o p : ℕ) (at_p : Block g st0 o p) where
  pub Block-new : Block (mark st o p g) st o p
  unfolding mark
  Block-new = (at_p.0, ground arith, at_p.2, at_p.3)

  -- A block elsewhere stays what it is.
  pub Block-kept :
      (st' : Status) (o' q : ℕ) → Block g st' o' q → q ≢ p → Block (mark st o p g) st' o' q
  unfolding mark
  Block-kept st' o' q b n = elim (Bool-cases (up o q == up o p)) [
    | inl same ↦
        let eq : up o q ≡ up o p = ground arith in
        let in_block = layout.blocks p q at_p.0 (subst (λ m. up m q ≡ up m p) (sym at_p.2) eq) in
        let size : o' ≡ o = sym b.2 ∙ in_block.2 ∙ at_p.2 in
        absurd (n (base_unique o p q eq at_p.3 (subst (λ m. up m q * 2 ^ m ≡ q) size b.3)))
    | inr other ↦ (b.0, rw other b.1, b.2, b.3)
  ]

  -- A block of another status than the new one was there before.
  pub Block-was :
      (st' : Status) (o' q : ℕ)
      → st' ≢ st
      → Block (mark st o p g) st' o' q
      → Block g st' o' q × (q ≢ p)
  unfolding mark
  Block-was st' o' q n b = elim (Bool-cases (up o q == up o p)) [
    | inl same ↦ absurd (n (ground (arith, b.1, same)))
    | inr other ↦
        ((b.0, ground (arith, b.1, other), b.2, b.3), λ (e : q ≡ p). ground (arith, ap (up o) e))
  ]

  pub Block-was_new :
      (o' q : ℕ) → Block (mark st o p g) st o' q → Block g st o' q ⊎ ((o' ≡ o) × (q ≡ p))
  unfolding mark
  Block-was_new o' q b = elim (Bool-cases (up o q == up o p)) [
    | inl same ↦
        let eq : up o q ≡ up o p = ground arith in
        let in_block = layout.blocks p q at_p.0 (subst (λ m. up m q ≡ up m p) (sym at_p.2) eq) in
        let size : o' ≡ o = sym b.2 ∙ in_block.2 ∙ at_p.2 in
        inr (size, base_unique o p q eq at_p.3 (subst (λ m. up m q * 2 ^ m ≡ q) size b.3))
    | inr other ↦ inl (b.0, ground (arith, b.1, other), b.2, b.3)
  ]
