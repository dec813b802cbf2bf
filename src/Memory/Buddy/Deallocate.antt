-- ===== src/Memory/Buddy/Deallocate.antt =====
-- `deallocate_p2frame` of src/memory/mod.rs: the frames of the block are free again, and the free
-- lists in order.
use redox_kernel.Common.{
  ℕ, ◌-◌, ◌^◌, ◌<◌, ◌≡◌, ◌≢◌, ◌∙◌, ap, sym, refl, subst, some, true, false, ◌==◌, if◌then◌else◌,
  arith, Bool-cases, Option-cases, inl, inr, ◌⊎◌, ◌*◌, Result, ok, sub_usize,
}
use redox_kernel.Memory.PageInfo.{PageInfo}
use redox_kernel.Memory.Buddy.{
  Allocator, put, write, push_block, merge, deallocate_p2frame, order_count, max_order,
}
use redox_kernel.Memory.Buddy.Siblings.{up, sibling_number}
use redox_kernel.Memory.Buddy.Sizes.{up-multiple}
use redox_kernel.Memory.Buddy.Lists.{Linked-same}
use redox_kernel.Memory.Buddy.Layout.{Status, Blocks, Block, mark}
use redox_kernel.Memory.Buddy.Layout.Status.{free, used, held}
use redox_kernel.Memory.Buddy.Marks.{Block-new, Block-was_new}
use redox_kernel.Memory.Buddy.Valid.{IsValid}
use redox_kernel.Memory.Buddy.Changes.{IsValid-take_back}
use redox_kernel.Memory.Buddy.Merging.{Merged, merge-Merged}
use redox_kernel.Memory.Buddy.Pushing.{push-Pushed}

-- The block at `p` is back, and no frame else has changed. It lies in a free block that has the
-- greatest order or whose sibling is no free block of its order.
pub record Deallocated (g : Blocks) (s : Allocator) (order p : ℕ) (r : Result Allocator)
    : Type 0 where
  pub blocks : Blocks
  pub state : Allocator
  pub returns : r ≡ ok state
  pub valid : IsValid blocks state
  pub known : blocks.known ≡ g.known
  pub freed : (q : ℕ) → up order q ≡ up order p → blocks.status q ≡ free
  pub others : (q : ℕ) → up order q ≢ up order p → blocks.status q ≡ g.status q
  pub merged :
      (o : ℕ) × (b : ℕ) × Block blocks free o b
      × ((q : ℕ) → up order q ≡ up order p → up o q ≡ up o b)
      × ((o ≡ max_order) ⊎ (¬ Block blocks free o (sibling_number (up o b) * 2 ^ o)))
  pub counted : state.used_frames ≡ sub_usize s.used_frames (2 ^ order)

-- No block is in the hands of the allocator: it is between two calls.
unfoldable pub IsSettled : Blocks → Type 0
IsSettled g = (q : ℕ) → g.known q ≡ true → g.status q ≢ held

-- The state once the first frame's word is cleared
cleared : ℕ → PageInfo → Allocator → Allocator
cleared p info s = write p (record info { refcount = 0 }) s

deallocate-steps :
    (order p frame largest : ℕ) (info : PageInfo) (s s1 s2 : Allocator)
    → s.infos p ≡ some info
    → merge (max_order - order) order p (cleared p info s) ≡ ok ((frame, largest), s1)
    → push_block largest frame s1 ≡ ok s2
    → deallocate_p2frame p order s
      ≡ ok (record s2 { used_frames = sub_usize s2.used_frames (2 ^ order) })
unfolding deallocate_p2frame cleared
deallocate-steps order p frame largest info s s1 s2 a b c = rw (a, b, c) refl

cleared-IsValid :
    (g : Blocks) (s : Allocator) (order p : ℕ) (info : PageInfo)
    → IsValid g s
    → Block g used order p
    → IsValid (mark held order p g) (cleared p info s)
unfolding cleared write put
cleared-IsValid g s order p info v b =
    IsValid-take_back g s (cleared p info s) v order p b (ground arith)
      (λ (q : ℕ) n. ground (arith, n)) (λ m. refl)

-- The invariant does not read the count of frames.
recount :
    (g : Blocks) (s : Allocator) (n : ℕ) → IsValid g s → IsValid g (record s { used_frames = n })
recount g s n v = record {
  prev = v.prev;
  next = v.next;
  rank = v.rank;
  layout = v.layout;
  linked =
      Linked-same (Block g free) (Block g free) v.prev v.next v.rank s
        (record s { used_frames = n }) v.linked (λ o q c. c) (λ o q c. c) (λ o. refl)
        (λ o q c. refl);
  infos = v.infos;
  marks = v.marks;
}

cleared_used :
    (p : ℕ) (info : PageInfo) (s : Allocator) → (cleared p info s).used_frames ≡ s.used_frames
unfolding cleared write
cleared_used p info s = refl

-- The statuses after the block at `p` is free
unfoldable freed_status : Blocks → ℕ → ℕ → ℕ → Status
freed_status g order p q = if up order q == up order p then free else g.status q

-- The block itself is not its sibling: when it is free, its sibling is what it was.
stays_apart :
    (g : Blocks) (s : Allocator) (o b : ℕ)
    → IsValid g s
    → Block g held o b
    → (o ≡ max_order) ⊎ (¬ Block g free o (sibling_number (up o b) * 2 ^ o))
    → (o ≡ max_order) ⊎ (¬ Block (mark free o b g) free o (sibling_number (up o b) * 2 ^ o))
stays_apart g s o b v at (inl top) = inl top
stays_apart g s o b v at (inr apart) =
    let n = sibling_number (up o b) in
    inr λ c. elim (Block-was_new g v.layout free held o b at o (n * 2 ^ o) c) [
      | inl was ↦ apart was
      | inr same ↦
          let e : n ≡ up o b = sym (up-multiple o n (n * 2 ^ o) refl) ∙ ap (up o) same.1 in
          absurd (omega (arith, e))
    ]

Deallocated-Merged :
    (g : Blocks) (s : Allocator) (order p : ℕ) (info : PageInfo)
    → s.infos p ≡ some info
    → Merged
        (mark held order p g)
        (freed_status g order p)
        order
        p
        (cleared p info s)
        (merge (max_order - order) order p (cleared p info s))
    → Deallocated g s order p (deallocate_p2frame p order s)
unfolding mark freed_status
Deallocated-Merged g s order p info h m =
    let pushed = push-Pushed m.blocks m.state m.order m.frame m.valid m.base in
    let (t, runs, valid, count) = pushed in
    let status : (q : ℕ)
        → (mark free m.order m.frame m.blocks).status q ≡ freed_status g order p q =
      λ q. elim (Bool-cases (up m.order q == up m.order m.frame)) [
        | inl same ↦ rw same (sym (m.inside q (ground arith)))
        | inr other ↦ rw other (m.outside q (λ x. ground (arith, x)))
      ] in
    record {
      blocks = mark free m.order m.frame m.blocks;
      state = record t { used_frames = sub_usize t.used_frames (2 ^ order) };
      returns = deallocate-steps order p m.frame m.order info s m.state t h m.returns runs;
      valid =
          recount (mark free m.order m.frame m.blocks) t (sub_usize t.used_frames (2 ^ order))
            valid;
      known = m.known;
      freed = λ q near.
          status q ∙ (let same : (up order q == up order p) ≡ true = ground arith in rw same refl);
      others = λ q far.
          status q
          ∙ (let other : (up order q == up order p) ≡ false = ground (arith, far) in rw other refl);
      merged = (
        m.order,
        m.frame,
        Block-new m.blocks m.valid.layout free held m.order m.frame m.base,
        m.around,
        stays_apart m.blocks m.state m.order m.frame m.valid m.base m.stopped,
      );
      counted = ap (λ u. sub_usize u (2 ^ order)) (count ∙ m.used_frames ∙ cleared_used p info s);
    }

-- Between two calls, for a valid allocator, none of whose known frames has a number below 2^10 that is
-- a power of two (1 to 512), to free a block in use does not panic, makes all its frames free, and
-- changes the status of no other frame. The free lists stay in order, and the block is merged as far
-- as it can be: it lies in one free block, and that has the greatest order or its sibling is not a
-- free block of the same order. The count of used frames is that of before less the block's, as a
-- word of 64 bits.
pub deallocate_p2frame_lem :
    (g : Blocks) (s : Allocator) (order p : ℕ)
    → IsValid g s
    → IsSettled g
    → Block g used order p
    → Deallocated g s order p (deallocate_p2frame p order s)
unfolding mark IsSettled freed_status
deallocate_p2frame_lem g s order p v settled b = elim (Option-cases (s.infos p)) [
  | inl h ↦ ground (arith, h, v.infos p, b.0)
  | inr (info, h) ↦
      let small = subst (λ m. m < order_count) b.2 (v.layout.orders p b.0) in
      Deallocated-Merged g s order p info h (
        merge-Merged (mark held order p g) (freed_status g order p) (max_order - order) order p
          (cleared p info s) (omega arith) (cleared-IsValid g s order p info v b)
          (Block-new g v.layout held used order p b) (λ q k e. ground (arith, e, settled q k))
          (λ q far. ground (arith, far)) (λ q near. ground (arith, near)))
]
