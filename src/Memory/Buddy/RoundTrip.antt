-- ===== src/Memory/Buddy/RoundTrip.antt =====
-- `allocate_p2frame_complex` followed by `deallocate_p2frame`, src/memory/mod.rs.
use redox_kernel.Common.{
  ℕ, ◌^◌, ◌<◌, ◌≤◌, ◌≡◌, ◌≢◌, ◌∙◌, ap, sym, subst, Option, some, true, ◌==◌, arith, Bool-cases, inl,
  inr, Result, ok, add_usize, sub_usize, usize_mod,
}
use native.Mathlib.Nat.{pow-le-pow_right}
use redox_kernel.Memory.Buddy.{Allocator, allocate_p2frame_complex, deallocate_p2frame, order_count}
use redox_kernel.Memory.Buddy.Siblings.{up}
use redox_kernel.Memory.Buddy.Layout.{Blocks}
use redox_kernel.Memory.Buddy.Valid.{IsValid}
use redox_kernel.Memory.Buddy.Allocate.{Allocated, allocate_p2frame_lem}
use redox_kernel.Memory.Buddy.Deallocate.{Deallocated, IsSettled, deallocate_p2frame_lem}

add-sub : (a b : ℕ) → a < usize_mod → b < usize_mod → sub_usize (add_usize a b) b ≡ a
add-sub a b h k = omega arith

power : (order : ℕ) → order < order_count → 2 ^ order < usize_mod
power order h =
    let le : 2 ^ order ≤ 2 ^ 10 =
      pow-le-pow_right {n = 2} (omega arith) {i = order} {j = 10} (omega arith) in
    omega arith

Allocated-IsSettled :
    {g : Blocks} {s : Allocator} {order : ℕ} {r : Result (Option (ℕ × ℕ) × Allocator)}
    → IsSettled g
    → (a : Allocated g s order r) → IsSettled a.blocks
unfolding IsSettled
Allocated-IsSettled {g} {s} {order} settled a q k h =
    elim (Bool-cases (up order q == up order a.frame)) [
      | inl same ↦
          let near : up order q ≡ up order a.frame = ground arith in
          let in_block =
            a.valid.layout.blocks a.frame q a.block.0
              (subst (λ m. up m q ≡ up m a.frame) (sym a.block.2) near) in
          ground (arith, in_block.1, a.block.1, h)
      | inr other ↦
          settled q (subst (λ f. f q ≡ true) a.known k)
            (sym (a.others q (λ x. ground (arith, x))) ∙ h)
    ]

-- The allocator after a block came and went: the same frames are free and in use.
pub record Restored (g : Blocks) (s : Allocator) (r : Result Allocator) : Type 0 where
  pub blocks : Blocks
  pub state : Allocator
  pub returns : r ≡ ok state
  pub valid : IsValid blocks state
  pub known : blocks.known ≡ g.known
  pub statuses : (q : ℕ) → blocks.status q ≡ g.status q
  pub counted : state.used_frames ≡ s.used_frames

Restored-Allocated :
    {g : Blocks} {s : Allocator} {order : ℕ} {r : Result (Option (ℕ × ℕ) × Allocator)}
    → s.used_frames < usize_mod
    → 2 ^ order < usize_mod
    → (a : Allocated g s order r)
    → Deallocated a.blocks a.state order a.frame (deallocate_p2frame a.frame order a.state)
    → Restored g s (deallocate_p2frame a.frame order a.state)
Restored-Allocated {g} {s} {order} small power a d = record {
  blocks = d.blocks;
  state = d.state;
  returns = d.returns;
  valid = d.valid;
  known = d.known ∙ a.known;
  statuses = λ q. elim (Bool-cases (up order q == up order a.frame)) [
    | inl same ↦ d.freed q (ground arith) ∙ sym (a.was_free q (ground arith))
    | inr other ↦
        let far : up order q ≢ up order a.frame = λ x. ground (arith, x) in
        d.others q far ∙ a.others q far
  ];
  counted =
      d.counted
      ∙ ap (λ u. sub_usize u (2 ^ order)) a.counted
      ∙ add-sub s.used_frames (2 ^ order) small power;
}

-- Between two calls, for a valid allocator whose count of used frames is below 2^64, and none of whose
-- known frames has a number below 2^10 that is a power of two (1 to 512), to free the block that an
-- allocation handed out makes exactly the frames free that were free before it, and restores the count
-- of used frames.
pub allocate-deallocate :
    (g : Blocks) (s t : Allocator) (order frame size : ℕ)
    → IsValid g s
    → IsSettled g
    → s.used_frames < usize_mod
    → allocate_p2frame_complex order s ≡ ok (some (frame, size), t)
    → Restored g s (deallocate_p2frame frame order t)
allocate-deallocate g s t order frame size v settled small e =
    elim (allocate_p2frame_lem g s order v) [
      | inl (h, full) ↦ ground (arith, h, e)
      | inr a ↦
          let at_frame : frame ≡ a.frame = ground (arith, a.returns, e) in
          let at_state : t ≡ a.state = ground (arith, a.returns, e) in
          let d =
            deallocate_p2frame_lem a.blocks a.state order a.frame a.valid
              (Allocated-IsSettled settled a) a.block in
          subst (λ x. Restored g s (deallocate_p2frame x order t)) (sym at_frame)
            (subst (λ x. Restored g s (deallocate_p2frame a.frame order x)) (sym at_state)
              (Restored-Allocated small
                (power order (
                  subst (λ k. k < order_count) a.block.2 (a.valid.layout.orders a.frame a.block.0)))
                a d))
    ]
