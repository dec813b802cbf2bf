-- ===== src/Memory/Buddy/Sizes.antt =====
-- A block in the hands of the allocator of src/memory/mod.rs splits, or merges with its sibling.
use redox_kernel.Common.{
  ℕ, zero, suc, ◌*◌, ◌/◌, ◌^◌, ◌<◌, ◌≤◌, ◌≡◌, ◌≢◌, ◌∙◌, ap, sym, refl, subst, true, ◌==◌, arith,
  Bool-cases, inl, inr,
}
use native.Mathlib.Nat.{mul-div_left, one-le-pow}
use redox_kernel.Memory.Buddy.{order_count}
use redox_kernel.Memory.Buddy.Siblings.{up, sibling_number}
use redox_kernel.Memory.Buddy.Layout.{Status, Blocks, Block, Layout, resize, up-suc}
use redox_kernel.Memory.Buddy.Layout.Status.{held}

-- Frames of one block are in one block of any larger order.
pub up-coarse : (o c p r : ℕ) → c ≤ o → up c r ≡ up c p → up o r ≡ up o p
up-coarse zero c p r l e = let eq : c ≡ 0 = omega arith in subst (λ m. up m r ≡ up m p) eq e
up-coarse (suc o) c p r l e = elim (Bool-cases (c == suc o)) [
  | inl same ↦ let eq : c ≡ suc o = ground arith in subst (λ m. up m r ≡ up m p) eq e
  | inr other ↦
      let below = up-coarse o c p r (ground arith) e in
      up-suc o r ∙ ap (λ u. u / 2) below ∙ sym (up-suc o p)
]

pub up-multiple : (k v p : ℕ) → p ≡ v * 2 ^ k → up k p ≡ v
unfolding up
up-multiple k v p e = rw e (mul-div_left v (one-le-pow k 2 (omega arith)))

-- The frames of the block of order `o` around `p` are held, in blocks of order `c`.
module _ (g : Blocks) (layout : Layout g) (o c m p : ℕ)
    (sizes : (c ≤ o) × (m ≤ o) × (o < order_count))
    (whole : (r : ℕ)
      → up o r ≡ up o p
      → (g.known r ≡ true) × (g.status r ≡ held) × (g.order r ≡ c)) where
  outside :
      (q r : ℕ)
      → g.known q ≡ true
      → up (g.order q) r ≡ up (g.order q) q
      → up o q ≢ up o p
      → up o r ≢ up o p
  outside q r k h n e =
      let at_r = whole r e in
      let size : g.order q ≡ c = sym (layout.blocks q r k h).2 ∙ at_r.2 in
      n (sym (up-coarse o c q r sizes.0 (subst (λ x. up x r ≡ up x q) size h)) ∙ e)

  resized_blocks :
      (q r : ℕ)
      → g.known q ≡ true
      → up ((resize o p m g).order q) r ≡ up ((resize o p m g).order q) q
      → (g.known r ≡ true)
        × (g.status r ≡ g.status q)
        × ((resize o p m g).order r ≡ (resize o p m g).order q)
  unfolding resize
  resized_blocks q r k h = elim (Bool-cases (up o q == up o p)) [
    | inl same ↦
        let eq : up o q ≡ up o p = ground arith in
        let size : (resize o p m g).order q ≡ m = rw same refl in
        let near : up o r ≡ up o p =
          up-coarse o m q r sizes.1 (subst (λ x. up x r ≡ up x q) size h) ∙ eq in
        let at_r = whole r near in (at_r.0, at_r.1 ∙ sym (whole q eq).1, ground (arith, near, eq))
    | inr other ↦
        let size : (resize o p m g).order q ≡ g.order q = rw other refl in
        let h' = subst (λ x. up x r ≡ up x q) size h in
        let far = outside q r k h' (λ (e : up o q ≡ up o p). ground (arith, other)) in
        let b = layout.blocks q r k h' in (b.0, b.1, ground (arith, far, other, b.2))
  ]

  pub Layout-resize : Layout (resize o p m g)
  unfolding resize
  Layout-resize = record {
    frames = layout.frames;
    corners = layout.corners;
    blocks = resized_blocks;
    orders = λ (q : ℕ) k. resized_order q k;
  }
    where
      resized_order : (q : ℕ) → g.known q ≡ true → (resize o p m g).order q < order_count
      resized_order q k = ground (arith, layout.orders q k)

  -- A block that is not held is what it was.
  pub Block-resized :
      (st : Status) (o' q : ℕ) → st ≢ held → Block (resize o p m g) st o' q → Block g st o' q
  unfolding resize
  Block-resized st o' q n b = elim (Bool-cases (up o q == up o p)) [
    | inl same ↦ absurd (n (sym b.1 ∙ (whole q (ground arith)).1))
    | inr other ↦ (b.0, b.1, ground (arith, b.2, other), b.3)
  ]

  pub Block-unresized :
      (st : Status) (o' q : ℕ) → st ≢ held → Block g st o' q → Block (resize o p m g) st o' q
  unfolding resize
  Block-unresized st o' q n b = elim (Bool-cases (up o q == up o p)) [
    | inl same ↦ absurd (n (sym b.1 ∙ (whole q (ground arith)).1))
    | inr other ↦ (b.0, b.1, rw other b.2, b.3)
  ]

  pub Block-resize_held :
      (q : ℕ) → up o q ≡ up o p → up m q * 2 ^ m ≡ q → Block (resize o p m g) held m q
  unfolding resize
  Block-resize_held q e a = let at_q = whole q e in (at_q.0, at_q.1, ground (arith, e), a)

-- A held block and its sibling make up the block of the next order.
pub siblings_whole :
    (g : Blocks) (m p q : ℕ)
    → Layout g
    → Block g held m p
    → Block g held m q
    → up m q ≡ sibling_number (up m p)
    → (r : ℕ) → up (suc m) r ≡ up (suc m) p
    → (g.known r ≡ true) × (g.status r ≡ held) × (g.order r ≡ m)
siblings_whole g m p q layout a b e r h =
    let halves : up m r / 2 ≡ up m p / 2 = sym (up-suc m r) ∙ h ∙ up-suc m p in
    elim (Bool-cases (up m r == up m p)) [
      | inl same ↦ of_block p a (ground arith)
      | inr other ↦ of_block q b (ground arith)
    ]
  where
    of_block :
        (x : ℕ)
        → Block g held m x
        → up m r ≡ up m x
        → (g.known r ≡ true) × (g.status r ≡ held) × (g.order r ≡ m)
    of_block x at_x near =
        let in_x = layout.blocks x r at_x.0 (subst (λ k. up k r ≡ up k x) (sym at_x.2) near) in
        (in_x.0, in_x.1 ∙ at_x.1, in_x.2 ∙ at_x.2)
