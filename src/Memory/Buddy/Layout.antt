-- ===== src/Memory/Buddy/Layout.antt =====
-- How the frames of src/memory/mod.rs are cut into aligned blocks of `2 ^ order` frames, and how
-- a block changes its status, splits and merges.
use redox_kernel.Common.{
  ℕ, suc, ◌*◌, ◌/◌, ◌^◌, ◌<◌, ◌≡◌, ◌∙◌, ap, sym, subst, Bool, true, false, ◌==◌, if◌then◌else◌,
  arith, Bool-cases, inl, inr,
}
use native.Mathlib.Nat.{div-div-eq-div-mul, pow-suc}
use redox_kernel.Memory.Buddy.{order_count, max_order}
use redox_kernel.Memory.Buddy.Siblings.{up}

-- A block is in a list, in use, or in the hands of the allocator.
pub data Status : Type 0 where
  free used held : Status

-- `known`: the frame has a page info. The order is that of the block that the frame is in.
pub record Blocks : Type 0 where
  pub known : ℕ → Bool
  pub status : ℕ → Status
  pub order : ℕ → ℕ

-- A block of this status and order starts at the frame.
abbrev pub Block : Blocks → Status → ℕ → ℕ → Type 0
Block g st o p = (g.known p ≡ true) × (g.status p ≡ st) × (g.order p ≡ o) × (up o p * 2 ^ o ≡ p)

-- Blocks are whole. No frame number is a power of two below `2 ^ max_order`: the sibling of such a
-- frame has address 0.
pub record Layout (g : Blocks) : Type 0 where
  pub frames : (p : ℕ) → g.known p ≡ true → (0 < p) × (p < 2 ^ 51)
  pub corners : (m : ℕ) → m < max_order → g.known (2 ^ m) ≡ false
  pub blocks :
      (p r : ℕ)
      → g.known p ≡ true
      → up (g.order p) r ≡ up (g.order p) p
      → (g.known r ≡ true) × (g.status r ≡ g.status p) × (g.order r ≡ g.order p)
  pub orders : (p : ℕ) → g.known p ≡ true → g.order p < order_count

-- The block of order `o` around `p` gets another status.
unfoldable pub mark : Status → ℕ → ℕ → Blocks → Blocks
mark st o p g = record g { status = λ (q : ℕ). if up o q == up o p then st else g.status q }

-- Its frames get another order.
unfoldable pub resize : ℕ → ℕ → ℕ → Blocks → Blocks
resize o p m g = record g { order = λ (q : ℕ). if up o q == up o p then m else g.order q }

pub base_unique : (o p q : ℕ) → up o q ≡ up o p → up o p * 2 ^ o ≡ p → up o q * 2 ^ o ≡ q → q ≡ p
base_unique o p q e a b = sym b ∙ ap (λ u. u * 2 ^ o) e ∙ a

pub up-suc : (o p : ℕ) → up (suc o) p ≡ up o p / 2
unfolding up
up-suc o p = rw (pow-suc 2 o) (sym (div-div-eq-div-mul p (2 ^ o) 2))

module _ (g : Blocks) (layout : Layout g) where
  -- The frames of one block have the same order.
  same_block :
      (o p q r : ℕ)
      → g.known p ≡ true
      → g.order p ≡ o
      → g.known q ≡ true
      → up (g.order q) r ≡ up (g.order q) q
      → (up o r == up o p) ≡ (up o q == up o p)
  same_block o p q r k e l h = elim (Bool-cases (up o q == up o p)) [
    | inl same ↦
        let eq : up o q ≡ up o p = ground arith in
        let at_q = layout.blocks p q k (subst (λ m. up m q ≡ up m p) (sym e) eq) in
        let both : up o r ≡ up o q = subst (λ m. up m r ≡ up m q) (at_q.2 ∙ e) h in
        ground (arith, both, eq)
    | inr other ↦ elim (Bool-cases (up o r == up o p)) [
      | inl same ↦
          let eq : up o r ≡ up o p = ground arith in
          let at_r = layout.blocks p r k (subst (λ m. up m r ≡ up m p) (sym e) eq) in
          let by_q = layout.blocks q r l h in
          let both : up o r ≡ up o q = subst (λ m. up m r ≡ up m q) (sym by_q.2 ∙ at_r.2 ∙ e) h in
          ground (arith, both, eq, other)
      | inr apart ↦ apart ∙ sym other
    ]
  ]

  pub Layout-mark :
      (st : Status) (o p : ℕ) → g.known p ≡ true → g.order p ≡ o → Layout (mark st o p g)
  unfolding mark
  Layout-mark st o p k e = record {
    frames = layout.frames;
    corners = layout.corners;
    blocks = λ (q r : ℕ) l h.
        let b = layout.blocks q r l h in
        (
          b.0,
          rw (same_block o p q r k e l h) (ap (λ x. if up o q == up o p then st else x) b.1),
          b.2,
        );
    orders = layout.orders;
  }
