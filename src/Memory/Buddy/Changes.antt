-- ===== src/Memory/Buddy/Changes.antt =====
-- The invariant of the frame allocator of src/memory/mod.rs as a block becomes the head of its list,
-- is handed out or taken back, splits or merges.
use redox_kernel.Common.{
  ℕ, ◌<◌, ◌≤◌, ◌≡◌, ◌≢◌, ◌∙◌, ap, sym, refl, subst, none, some, true, ◌==◌, arith, Bool-cases, inl,
  inr, is_some,
}
use redox_kernel.Memory.PageInfo.{PageInfo, as_free}
use redox_kernel.Memory.Buddy.{Allocator, order_count}
use redox_kernel.Memory.Buddy.Siblings.{up}
use redox_kernel.Memory.Buddy.Lists.{Linked-same}
use redox_kernel.Memory.Buddy.Heads.{IsPushed, put-cases, Linked-push}
use redox_kernel.Memory.Buddy.Layout.{Status, Blocks, Block, mark, resize, Layout-mark}
use redox_kernel.Memory.Buddy.Layout.Status.{free, used, held}
use redox_kernel.Memory.Buddy.Marks.{Block-new, Block-kept, Block-was, Block-was_new}
use redox_kernel.Memory.Buddy.Sizes.{Layout-resize, Block-resized, Block-unresized}
use redox_kernel.Memory.Buddy.Valid.{
  IsValid, status_apart, link-cases, free-held, held-free, free-used, used-held, used-free,
}

held-used : held ≢ used
held-used e = ground (arith, e)

module _ (g : Blocks) (s t : Allocator) (v : IsValid g s) (o p : ℕ) where
  pushed_present :
      Block g held o p
      → IsPushed o p v.prev v.next s t
      → (q : ℕ) → is_some (t.infos q) ≡ is_some (s.infos q)
  pushed_present b u q = elim (Bool-cases (q == p)) [
    | inl same ↦
        let eq : q ≡ p = ground arith in
        let there = v.infos p ∙ b.0 in rw eq (rw u.new_words (sym there))
    | inr other ↦ elim (link-cases (s.for_orders o) q) [
      | inl h ↦
          let w = v.linked.words o q (v.linked.heads o q h).0 in rw (u.old_words q h w, w) refl
      | inr n ↦ ap is_some (u.others q (λ (e : q ≡ p). ground (arith, other)) n)
    ]
  ]

  -- A block at the head of its list is free.
  pub IsValid-push : Block g held o p → IsPushed o p v.prev v.next s t → IsValid (mark free o p g) t
  unfolding mark
  IsValid-push b u =
      let fresh : (o' q : ℕ) → Block g free o' q → q ≢ p =
        λ o' q c. status_apart g held free o o' p q held-free b c in
      record {
        prev = _;
        next = _;
        rank = _;
        layout = Layout-mark g v.layout free o p b.0 b.2;
        linked =
            Linked-push (Block g free) (Block (mark free o p g) free) v.prev v.next v.rank s t o p
              v.linked
              (
                subst (λ k. k < order_count) b.2 (v.layout.orders p b.0),
                (v.layout.frames p b.0).0,
                (v.layout.frames p b.0).1,
              )
              fresh (Block-new g v.layout free held o p b)
              (λ (o' q : ℕ) c. Block-kept g v.layout free held o p b free o' q c (fresh o' q c))
              (Block-was_new g v.layout free held o p b) u;
        infos = λ (q : ℕ). pushed_present b u q ∙ v.infos q;
        marks = λ (o' q : ℕ) info c e.
            let at_q = (Block-was g v.layout free held o p b used o' q used-free c) in
            let same =
              u.others q at_q.1 (λ h. used-free (sym at_q.0.1 ∙ (v.linked.heads o q h).0.1)) in
            v.marks o' q info at_q.0 (sym same ∙ e);
      }

  -- A held block is handed out.
  pub IsValid-hand_out :
      (info : PageInfo)
      → Block g held o p
      → as_free info ≡ none
      → t.infos p ≡ some info
      → ((q : ℕ) → q ≢ p → t.infos q ≡ s.infos q)
      → ((m : ℕ) → t.for_orders m ≡ s.for_orders m)
      → IsValid (mark used o p g) t
  unfolding mark
  IsValid-hand_out info b e at_p others heads =
      let fresh : (o' q : ℕ) → Block g free o' q → q ≢ p =
        λ o' q c. status_apart g held free o o' p q held-free b c in
      record {
        prev = v.prev;
        next = v.next;
        rank = v.rank;
        layout = Layout-mark g v.layout used o p b.0 b.2;
        linked =
            Linked-same (Block g free) (Block (mark used o p g) free) v.prev v.next v.rank s t
              v.linked (λ o' q c. Block-kept g v.layout used held o p b free o' q c (fresh o' q c))
              (λ o' q c. (Block-was g v.layout used held o p b free o' q free-used c).0) heads
              (λ o' q c. others q (fresh o' q c));
        infos = λ (q : ℕ). elim (put-cases s.infos p (t.infos p) q) [
          | inl (eq, h) ↦ rw eq (ap is_some at_p ∙ sym b.0)
          | inr (n, h) ↦ ap is_some (others q n) ∙ v.infos q
        ];
        marks = λ (o' q : ℕ) i c h. elim (Block-was_new g v.layout used held o p b o' q c) [
          | inl a ↦
              v.marks o' q i a
                (sym (others q (status_apart g held used o o' p q held-used b a)) ∙ h)
          | inr a ↦
              let at_q : t.infos p ≡ some i = subst (λ k. t.infos k ≡ some i) a.1 h in
              ground (arith, e, at_p, at_q)
        ];
      }

  -- A used block is taken back.
  pub IsValid-take_back :
      Block g used o p
      → is_some (t.infos p) ≡ true
      → ((q : ℕ) → q ≢ p → t.infos q ≡ s.infos q)
      → ((m : ℕ) → t.for_orders m ≡ s.for_orders m)
      → IsValid (mark held o p g) t
  unfolding mark
  IsValid-take_back b present others heads =
      let fresh : (o' q : ℕ) → Block g free o' q → q ≢ p =
        λ o' q c. status_apart g used free o o' p q used-free b c in
      record {
        prev = v.prev;
        next = v.next;
        rank = v.rank;
        layout = Layout-mark g v.layout held o p b.0 b.2;
        linked =
            Linked-same (Block g free) (Block (mark held o p g) free) v.prev v.next v.rank s t
              v.linked (λ o' q c. Block-kept g v.layout held used o p b free o' q c (fresh o' q c))
              (λ o' q c. (Block-was g v.layout held used o p b free o' q free-held c).0) heads
              (λ o' q c. others q (fresh o' q c));
        infos = λ (q : ℕ). elim (put-cases s.infos p (t.infos p) q) [
          | inl (eq, h) ↦ rw eq (present ∙ sym b.0)
          | inr (n, h) ↦ ap is_some (others q n) ∙ v.infos q
        ];
        marks = λ (o' q : ℕ) i c h.
            let a = Block-was g v.layout held used o p b used o' q used-held c in
            v.marks o' q i a.0 (sym (others q a.1) ∙ h);
      }

-- Held blocks split or merge.
pub IsValid-resize :
    (g : Blocks) (s : Allocator) (o c m p : ℕ)
    → (v : IsValid g s) → (c ≤ o) × (m ≤ o) × (o < order_count)
    → ((r : ℕ) → up o r ≡ up o p → (g.known r ≡ true) × (g.status r ≡ held) × (g.order r ≡ c))
    → IsValid (resize o p m g) s
unfolding resize
IsValid-resize g s o c m p v sizes whole =
    let kept : (o' q : ℕ) → Block g free o' q → Block (resize o p m g) free o' q =
      λ o' q. Block-unresized g v.layout o c m p sizes whole free o' q free-held in
    let was : (st : Status)
        → st ≢ held
        → (o' q : ℕ) → Block (resize o p m g) st o' q
        → Block g st o' q =
      λ st n o' q. Block-resized g v.layout o c m p sizes whole st o' q n in
    record {
      prev = v.prev;
      next = v.next;
      rank = v.rank;
      layout = Layout-resize g v.layout o c m p sizes whole;
      linked =
          Linked-same (Block g free) (Block (resize o p m g) free) v.prev v.next v.rank s s v.linked
            kept (was free free-held) (λ o'. refl) (λ o' q f. refl);
      infos = v.infos;
      marks = λ (o' q : ℕ) info b. v.marks o' q info (was used used-held o' q b);
    }
