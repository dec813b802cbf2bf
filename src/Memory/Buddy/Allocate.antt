-- ===== src/Memory/Buddy/Allocate.antt =====
-- `allocate_p2frame_complex` of src/memory/mod.rs: it hands out free frames only, and fails only
-- if no free block is large enough.
use redox_kernel.Common.{
  ℕ, zero, suc, ◌+◌, ◌-◌, ◌*◌, ◌^◌, ◌<◌, ◌≤◌, ◌≡◌, ◌≢◌, ◌∙◌, ap, sym, refl, subst, Option, none,
  some, true, ◌==◌, ltb, arith, Bool-cases, Option-cases, ◌⊎◌, inl, inr, Result, ok, ◌>>=◌,
  add_usize,
}
use redox_kernel.Memory.PageInfo.{PageInfo, as_free, mark_used, rc_used_not_free}
use redox_kernel.Memory.Buddy.{
  Allocator, write, put, set_head, set_prev, relink_if, find_block, split, take_block,
  allocate_p2frame_complex, order_count,
}
use redox_kernel.Memory.Buddy.P2Frame
use redox_kernel.Memory.Buddy.P2Frame.{page_size}
use redox_kernel.Memory.Buddy.Siblings.{up}
use redox_kernel.Memory.Buddy.Marks.{Block-new}
use redox_kernel.Memory.Buddy.Changes.{IsValid-hand_out}
use redox_kernel.Memory.Buddy.Unlink.{
  taken, unlink_head-ok, taken-IsUnlinked, taken_used, prev-Linkable, next-Linkable,
}
use redox_kernel.Memory.Buddy.Words.{free_info, frame-new, as_free-free_info}
use redox_kernel.Memory.Buddy.Layout.{Blocks, Block, mark}
use redox_kernel.Memory.Buddy.Sizes.{up-coarse, up-multiple}
use redox_kernel.Memory.Buddy.Layout.Status.{free, used, held}
use redox_kernel.Memory.Buddy.Valid.{IsValid, IsValid-unlink}
use redox_kernel.Memory.Buddy.Splits.{NoBlocks, split-Splits}

find_block-none :
    (count order : ℕ) (s : Allocator)
    → find_block count order s.for_orders ≡ none
    → NoBlocks order (order + count) s
unfolding find_block
find_block-none zero order s e = λ j a b. absurd (omega arith)
find_block-none (suc count) order s e = elim (Option-cases (s.for_orders order)) [
  | inr (f, h) ↦ ground (arith, e, h)
  | inl h ↦
      let rest = find_block-none count (suc order) s (ground (arith, e, h)) in
      λ j a b. elim (Bool-cases (j == order)) [
        | inl same ↦ subst (λ k. s.for_orders k ≡ none) (ground arith) h
        | inr other ↦ rest j (ground arith) (ground arith)
      ]
]

find_block-some :
    (count order k p : ℕ) (s : Allocator)
    → find_block count order s.for_orders ≡ some (k, p)
    → (order ≤ k) × (s.for_orders k ≡ some p) × NoBlocks order k s
unfolding find_block
find_block-some zero order k p s e = ground (arith, e)
find_block-some (suc count) order k p s e = elim (Option-cases (s.for_orders order)) [
  | inr (f, h) ↦
      let at : order ≡ k = ground (arith, e, h) in
      (
        omega arith,
        subst (λ m. s.for_orders m ≡ some p) at (ground (arith, e, h)),
        λ j a b. absurd (omega arith),
      )
  | inl h ↦
      let rest = find_block-some count (suc order) k p s (ground (arith, e, h)) in
      (
        omega (arith, rest.0),
        rest.1,
        λ j a b. elim (Bool-cases (j == order)) [
          | inl same ↦ subst (λ m. s.for_orders m ≡ none) (ground arith) h
          | inr other ↦ rest.2 j (ground arith) (ground arith)
        ],
      )
]

-- The free blocks are all in the lists.
no_free_block :
    (fuel o p : ℕ) (g : Blocks) (s : Allocator) (v : IsValid g s)
    → v.rank p < fuel
    → s.for_orders o ≡ none
    → ¬ Block g free o p
no_free_block zero o p g s v l e b = omega arith
no_free_block (suc fuel) o p g s v l e b = elim (Option-cases (v.prev p)) [
  | inl h ↦ ground (arith, v.linked.firsts o p b h, e)
  | inr (q, h) ↦
      let at_q = v.linked.prevs o p q b h in
      no_free_block fuel o q g s v (omega (arith, at_q.2)) e at_q.0
]

-- The allocation of `2 ^ order` frames from `frame` on, which were free.
pub record Allocated (g : Blocks) (s : Allocator) (order : ℕ)
    (r : Result (Option (ℕ × ℕ) × Allocator)) : Type 0 where
  pub frame : ℕ
  pub blocks : Blocks
  pub state : Allocator
  pub returns : r ≡ ok (some (frame, page_size * 2 ^ order), state)
  pub valid : IsValid blocks state
  pub block : Block blocks used order frame
  pub known : blocks.known ≡ g.known
  pub was_free : (q : ℕ) → up order q ≡ up order frame → g.status q ≡ free
  pub others : (q : ℕ) → up order q ≢ up order frame → blocks.status q ≡ g.status q
  pub counted : state.used_frames ≡ add_usize s.used_frames (2 ^ order)

-- The words of `mark_used`
abbrev used_info : PageInfo
used_info = record { refcount = rc_used_not_free; next = 0 }

-- The state after the block at `p` has been handed out
handed_out : ℕ → ℕ → Allocator → Allocator
handed_out order p s =
    write p used_info (record s { used_frames = add_usize s.used_frames (2 ^ order) })

take_block-steps :
    (order k p : ℕ) (info : PageInfo) (words : ℕ × ℕ) (next : Option ℕ) (s s1 s2 : Allocator)
    → s.infos p ≡ some info
    → as_free info ≡ some words
    → P2Frame.frame words.1 ≡ next
    → relink_if next (set_prev (P2Frame.new none k)) s ≡ ok s1
    → split p order (k - order) (set_head k next s1) ≡ ok s2
    → take_block order k p s ≡ ok ((p, page_size * 2 ^ order), handed_out order p s2)
unfolding take_block handed_out mark_used
take_block-steps order k p info words next s s1 s2 a b c d e = rw (a, b, c, d, e) refl

handed_out_used :
    (order p : ℕ) (s : Allocator)
    → (handed_out order p s).used_frames ≡ add_usize s.used_frames (2 ^ order)
unfolding handed_out write
handed_out_used order p s = refl

IsValid-handed_out :
    (order p : ℕ) (g : Blocks) (s : Allocator)
    → IsValid g s
    → Block g held order p
    → IsValid (mark used order p g) (handed_out order p s)
unfolding handed_out write put as_free
IsValid-handed_out order p g s v b =
    IsValid-hand_out g s (handed_out order p s) v order p used_info b (ground arith) (ground arith)
      (λ (q : ℕ) n. ground (arith, n)) (λ m. refl)

pub Allocated-take_block :
    (g : Blocks) (s : Allocator) (order k p : ℕ)
    → IsValid g s
    → order ≤ k
    → s.for_orders k ≡ some p
    → NoBlocks order k s
    → Allocated g s order
        (take_block order k p s >>= λ (taken : (ℕ × ℕ) × Allocator). ok (some taken.0, taken.1))
unfolding mark
Allocated-take_block g s order k p v l e n =
    let head = v.linked.heads k p e in
    let at_p = head.0 in
    let words = v.linked.words k p at_p in
    let small = (v.linked.frames k p at_p).0 in
    let relinked =
      unlink_head-ok (Block g free) v.prev v.next v.rank s k p v.linked at_p (v.next p) refl in
    let g1 = mark held k p g in
    let s1 = taken k v.prev v.next none (v.next p) s in
    let gone =
      taken-IsUnlinked (Block g free) v.prev v.next v.rank s k p v.linked at_p none (v.next p)
        head.1 refl in
    let v1 = IsValid-unlink g s s1 v k p at_p gone in
    let whole : (q : ℕ) → up k q ≡ up k p → g.status q ≡ free = λ q near.
      (v.layout.blocks p q at_p.0 (subst (λ m. up m q ≡ up m p) (sym at_p.2) near)).1 ∙ at_p.1 in
    let splits =
      split-Splits g1 g.status order (k - order) k p s1 (omega arith) v1
        (Block-new g v.layout held free k p at_p)
        (λ (j : ℕ) a c. ground (arith, gone.head j, head.1, n j a c)) (λ q far. ground (arith, far))
        whole in
    record {
      frame = p;
      blocks = mark used order p splits.blocks;
      state = handed_out order p splits.state;
      returns =
          rw
            (take_block-steps order k p (free_info (v.prev p) (v.next p) k) _ (v.next p) s
              relinked.0 splits.state words
              (as_free-free_info (v.prev p) (v.next p) k
                (prev-Linkable (Block g free) v.prev v.next v.rank s k p v.linked at_p k p at_p)
                (ground arith))
              (frame-new (v.next p) k
                (next-Linkable (Block g free) v.prev v.next v.rank s k p v.linked at_p k p at_p)
                (ground arith))
              relinked.1 (rw relinked.2 splits.returns))
            refl;
      valid = IsValid-handed_out order p splits.blocks splits.state splits.valid splits.base;
      block = Block-new splits.blocks splits.valid.layout used held order p splits.base;
      known = splits.known;
      was_free = λ q near. whole q (up-coarse k order p q l near);
      others = λ q far. ground (arith, far, splits.outside q far);
      counted =
          handed_out_used order p splits.state
          ∙ ap (λ u. add_usize u (2 ^ order))
              (splits.used_frames ∙ taken_used k v.prev v.next none (v.next p) s);
    }

-- A free frame is in a free block of its order.
below :
    (g : Blocks) (s : Allocator) (v : IsValid g s) (order : ℕ)
    → NoBlocks order (order + (order_count - order)) s
    → (q : ℕ) → g.known q ≡ true
    → g.status q ≡ free
    → g.order q < order
below g s v order empty q k f =
    let o = g.order q in
    let base = up o q * 2 ^ o in
    let same : up o base ≡ up o q = up-multiple o (up o q) base refl in
    let at_base = v.layout.blocks q base k same in
    let block : Block g free o base =
      (at_base.0, at_base.1 ∙ f, at_base.2, ap (λ u. u * 2 ^ o) same) in
    elim (Bool-cases (ltb o order)) [
      | inl less ↦ ground arith
      | inr more ↦
          let small = v.layout.orders q k in
          let none_there = empty o (ground arith) (ground arith) in
          absurd (no_free_block (suc (v.rank base)) o base g s v (omega arith) none_there block)
    ]

-- An allocation of `2 ^ order` frames hands out an aligned block of frames that were free, changes
-- no other frame, and keeps the free lists in order; it fails only if every free frame is in a
-- block of a smaller order.
pub allocate_p2frame_lem :
    (g : Blocks) (s : Allocator) (order : ℕ)
    → IsValid g s
    → ((allocate_p2frame_complex order s ≡ ok (none, s))
        × ((q : ℕ) → g.known q ≡ true → g.status q ≡ free → g.order q < order))
      ⊎ Allocated g s order (allocate_p2frame_complex order s)
unfolding allocate_p2frame_complex
allocate_p2frame_lem g s order v =
    elim (Option-cases (find_block (order_count - order) order s.for_orders)) [
      | inl e ↦
          let empty = find_block-none (order_count - order) order s e in
          inl (rw (allocate_p2frame_complex, e) refl, λ q k f. below g s v order empty q k f)
      | inr ((k, p), e) ↦
          let found = find_block-some (order_count - order) order k p s e in
          inr (
            rw (allocate_p2frame_complex, e)
              (Allocated-take_block g s order k p v found.0 found.1 found.2))
    ]
