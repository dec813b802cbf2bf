-- ===== src/Memory/Buddy/Tests.antt =====
-- The frame allocator of src/memory/mod.rs with one free block of 1024 frames, those from 2048 on.
use redox_kernel.Common.{
  ℕ, ◌*◌, ◌^◌, ◌<◌, ◌≤◌, ◌≡◌, ◌∙◌, sym, refl, subst, Option, none, some, true, ◌==◌, if◌then◌else◌,
  arith, ◌⊎◌, ok,
}
use native.Mathlib.Nat.{pow-le-pow_right}
use redox_kernel.Memory.PageInfo.{PageInfo, as_free, rc_used_not_free}
use redox_kernel.Memory.Buddy.{Allocator, allocate_p2frame_complex, deallocate_p2frame}
use redox_kernel.Memory.Buddy.Siblings.{up}
use redox_kernel.Memory.Buddy.Words.{free_info}
use redox_kernel.Memory.Buddy.Layout.{Blocks, Block, Layout}
use redox_kernel.Memory.Buddy.Layout.Status.{free, used}
use redox_kernel.Memory.Buddy.Valid.{IsValid}
use redox_kernel.Memory.Buddy.Allocate.{Allocated, allocate_p2frame_lem}
use redox_kernel.Memory.Buddy.Deallocate.{Deallocated, IsSettled, deallocate_p2frame_lem}
use redox_kernel.Memory.Buddy.RoundTrip.{Restored, allocate-deallocate}

abbrev arena : Blocks
arena = record { known = λ (p : ℕ). up 10 p == 2; status = λ (p : ℕ). free; order = λ (p : ℕ). 10 }

abbrev booted : Allocator
booted = record {
  for_orders = λ (o : ℕ). if o == 10 then some 2048 else none;
  infos = λ (p : ℕ). if up 10 p == 2 then some (free_info none none 10) else none;
  used_frames = 0;
}

arena-Layout : Layout arena
unfolding up
arena-Layout = record {
  frames = λ (p : ℕ) k. ground arith;
  corners = λ (m : ℕ) l.
      let le : 2 ^ m ≤ 2 ^ 9 =
        pow-le-pow_right {n = 2} (omega arith) {i = m} {j = 9} (omega arith) in
      ground arith;
  blocks = λ (p r : ℕ) k h. ground (arith, k, h);
  orders = λ (p : ℕ) k. omega arith;
}

arena_block : (o p : ℕ) → Block arena free o p → (o ≡ 10) × (p ≡ 2048)
arena_block o p b =
    let size : o ≡ 10 = sym b.2 in
    let base = subst (λ m. up m p * 2 ^ m ≡ p) size b.3 in
    let number : up 10 p ≡ 2 = ground (arith, b.0) in (size, omega (arith, base, number))

arena_base : Block arena free 10 2048
unfolding up
arena_base = (refl, refl, refl, refl)

booted-IsValid : IsValid arena booted
booted-IsValid = record {
  prev = λ (p : ℕ). none;
  next = λ (p : ℕ). none;
  rank = λ (p : ℕ). 0;
  layout = arena-Layout;
  linked = record {
    sizes = λ (o o' p : ℕ) b c. (arena_block o p b).0 ∙ sym (arena_block o' p c).0;
    frames = λ (o p : ℕ) b.
        let e = arena_block o p b in (omega (arith, e.0), omega (arith, e.1), omega (arith, e.1));
    words = λ (o p : ℕ) b. let e = arena_block o p b in ground (arith, b.0, e.0);
    nexts = λ (o p q : ℕ) b e. ground (arith, e);
    prevs = λ (o p q : ℕ) b e. ground (arith, e);
    firsts = λ (o p : ℕ) b e. let f = arena_block o p b in ground (arith, f.0, f.1);
    heads = λ (o p : ℕ) e.
        let size : o ≡ 10 = ground (arith, e) in
        let frame : 2048 ≡ p = ground (arith, e) in
        (
          subst (λ m. Block arena free m p) (sym size)
              (subst (Block arena free 10) frame arena_base),
          refl,
        );
  };
  infos = λ (p : ℕ). ground arith;
  marks = λ (o p : ℕ) info b e. ground (arith, b.1);
}

arena-IsSettled : IsSettled arena
unfolding IsSettled
arena-IsSettled q k e = ground (arith, e)

allocate_p2frame_example :
    ((allocate_p2frame_complex 1 booted ≡ ok (none, booted))
      × ((q : ℕ) → arena.known q ≡ true → arena.status q ≡ free → arena.order q < 1))
    ⊎ Allocated arena booted 1 (allocate_p2frame_complex 1 booted)
allocate_p2frame_example = allocate_p2frame_lem arena booted 1 booted-IsValid

-- What is left after two frames are taken
abbrev after_two : Allocator
unfolding allocate_p2frame_complex
after_two = elim (allocate_p2frame_complex 1 booted) [ ok (r, s) ↦ s | _ ↦ booted ]

two_taken : allocate_p2frame_complex 1 booted ≡ ok (some (2048, 8192), after_two)
unfolding allocate_p2frame_complex up
two_taken = refl

allocate-deallocate_example : Restored arena booted (deallocate_p2frame 2048 1 after_two)
allocate-deallocate_example =
    allocate-deallocate arena booted after_two 1 2048 8192 booted-IsValid arena-IsSettled
      (omega arith) two_taken

-- Frame 2048 in use, its sibling free
abbrev pair : Blocks
pair = record {
  known = λ (p : ℕ). up 1 p == 1024;
  status = λ (p : ℕ). if p == 2048 then used else free;
  order = λ (p : ℕ). 0;
}

abbrev half_used : Allocator
half_used = record {
  for_orders = λ (o : ℕ). if o == 0 then some 2049 else none;
  infos = λ (p : ℕ).
      if up 1 p == 1024
      then (if p == 2048
          then some (record { refcount = rc_used_not_free; next = 0 })
          else some (free_info none none 0))
      else none;
  used_frames = 1;
}

pair_block : (o p : ℕ) → Block pair free o p → (o ≡ 0) × (p ≡ 2049)
unfolding up
pair_block o p b = (sym b.2, ground (arith, b.0, b.1))

pair-Layout : Layout pair
unfolding up
pair-Layout = record {
  frames = λ (p : ℕ) k. ground arith;
  corners = λ (m : ℕ) l.
      let le : 2 ^ m ≤ 2 ^ 9 =
        pow-le-pow_right {n = 2} (omega arith) {i = m} {j = 9} (omega arith) in
      ground arith;
  blocks = λ (p r : ℕ) k h. let same : r ≡ p = ground (arith, h) in rw same (k, refl, refl);
  orders = λ (p : ℕ) k. omega arith;
}

half_used-IsValid : IsValid pair half_used
unfolding up as_free
half_used-IsValid = record {
  prev = λ (p : ℕ). none;
  next = λ (p : ℕ). none;
  rank = λ (p : ℕ). 0;
  layout = pair-Layout;
  linked = record {
    sizes = λ (o o' p : ℕ) b c. (pair_block o p b).0 ∙ sym (pair_block o' p c).0;
    frames = λ (o p : ℕ) b.
        let e = pair_block o p b in (omega (arith, e.0), omega (arith, e.1), omega (arith, e.1));
    words = λ (o p : ℕ) b. let e = pair_block o p b in rw (e.0, e.1) refl;
    nexts = λ (o p q : ℕ) b e. ground (arith, e);
    prevs = λ (o p q : ℕ) b e. ground (arith, e);
    firsts = λ (o p : ℕ) b e. let f = pair_block o p b in rw (f.0, f.1) refl;
    heads = λ (o p : ℕ) e.
        let size : o ≡ 0 = ground (arith, e) in
        let frame : 2049 ≡ p = ground (arith, e) in
        (
          subst (λ m. Block pair free m p) (sym size)
              (subst (Block pair free 0) frame (refl, refl, refl, refl)),
          refl,
        );
  };
  infos = λ (p : ℕ). ground arith;
  marks = λ (o p : ℕ) info b e. marked p info (ground (arith, b.1)) e;
}
  where
    marked :
        (p : ℕ) (info : PageInfo) → p ≡ 2048 → half_used.infos p ≡ some info → as_free info ≡ none
    marked p info h e =
        let at : half_used.infos 2048 ≡ some info =
          subst (λ q. half_used.infos q ≡ some info) h e in
        let same : record { refcount = rc_used_not_free; next = 0 } ≡ info = ground (arith, at) in
        subst (λ i. as_free i ≡ none) same refl

pair-IsSettled : IsSettled pair
unfolding IsSettled
pair-IsSettled q k e = ground (arith, e)

deallocate_p2frame_example : Deallocated pair half_used 0 2048 (deallocate_p2frame 2048 0 half_used)
unfolding up
deallocate_p2frame_example =
    deallocate_p2frame_lem pair half_used 0 2048 half_used-IsValid pair-IsSettled
      (refl, refl, refl, refl)

-- They merge into a block of two frames.
merged_head : Option ℕ
unfolding deallocate_p2frame
merged_head = elim (deallocate_p2frame 2048 0 half_used) [ ok s ↦ s.for_orders 1 | _ ↦ none ]

merged_head_two : merged_head ≡ some 2048
unfolding deallocate_p2frame merged_head up
merged_head_two = refl
