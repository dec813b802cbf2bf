-- ===== src/Memory/Buddy/Unlink.antt =====
-- The code of src/memory/mod.rs that takes a free block out of its list, in
-- `allocate_p2frame_complex` and in `deallocate_p2frame`.
use redox_kernel.Common.{
  ℕ, ◌<◌, ◌≡◌, ◌≢◌, ◌∙◌, ap, refl, subst, Option, none, some, arith, inl, inr, ok,
}
use redox_kernel.Memory.PageInfo.{PageInfo}
use redox_kernel.Memory.Buddy.{
  Allocator, put, write, set_head, set_next, set_prev, relink, relink_if, get_free_alloc_page_info,
  unlink, order_count,
}
use redox_kernel.Memory.Buddy.P2Frame
use redox_kernel.Memory.Buddy.Words.{free_info, Linkable, frame-new, as_free-free_info}
use redox_kernel.Memory.Buddy.Lists.{Linked, IsUnlinked, put_if}
use redox_kernel.Memory.Buddy.Heads.{put-cases}

pub relink-ok :
    (r o : ℕ) (f : PageInfo → PageInfo) (a b : Option ℕ) (s : Allocator)
    → s.infos r ≡ some (free_info a b o)
    → Linkable a
    → o < order_count
    → relink r f s ≡ ok (write r (f (free_info a b o)) s)
unfolding relink get_free_alloc_page_info
relink-ok r o f a b s e l h = rw (e, as_free-free_info a b o l (ground arith)) refl

pub put_other : {A : Type 0} (f : ℕ → A) (i j : ℕ) (a : A) → j ≢ i → put f i a j ≡ f j
put_other f i j a n = elim (put-cases f i a j) [ inl (e, h) ↦ absurd (n e) | inr (e, h) ↦ h ]

-- The state after the block between `before` and `after` is taken out of the list of `order`
unfoldable pub taken :
    ℕ → (ℕ → Option ℕ) → (ℕ → Option ℕ) → Option ℕ → Option ℕ → Allocator → Allocator
taken order prev next none none s = set_head order none s
taken order prev next none (some n) s =
    write n (free_info none (next n) order) (set_head order (some n) s)
taken order prev next (some r) none s = write r (free_info (prev r) none order) s
taken order prev next (some r) (some n) s =
    write n (free_info (some r) (next n) order) (write r (free_info (prev r) (some n) order) s)

module _ (is_free : ℕ → ℕ → Type 0) (prev next : ℕ → Option ℕ) (rank : ℕ → ℕ) (s : Allocator)
    (order p : ℕ) (linked : Linked is_free prev next rank s) (free_p : is_free order p) where
  linkable : (o q : ℕ) (f : Option ℕ) → ((r : ℕ) → f ≡ some r → is_free o r) → Linkable f
  linkable o q none h = tt
  linkable o q (some r) h = let f = linked.frames o r (h r refl) in (f.1, f.2)

  pub prev-Linkable : (o q : ℕ) → is_free o q → Linkable (prev q)
  prev-Linkable o q f = linkable o q (prev q) λ r e. (linked.prevs o q r f e).0

  pub next-Linkable : (o q : ℕ) → is_free o q → Linkable (next q)
  next-Linkable o q f = linkable o q (next q) λ r e. (linked.nexts o q r f e).0

  small : order < order_count
  small = (linked.frames order p free_p).0

  -- What comes after is not what comes before.
  apart : (r n : ℕ) → prev p ≡ some r → next p ≡ some n → n ≢ r
  apart r n a b e =
      let below = (linked.prevs order p r free_p a).2 in
      let at_n = linked.nexts order p n free_p b in
      let above = (linked.prevs order n p at_n.0 at_n.1).2 in
      let same : rank n ≡ rank r = ap rank e in ground arith

  frame_word : (f : Option ℕ) → Linkable f → P2Frame.frame (P2Frame.new f order) ≡ f
  frame_word f l = frame-new f order l (ground (arith, small))

  pub unlink-ok :
      (before after : Option ℕ)
      → prev p ≡ before
      → next p ≡ after
      → unlink order (free_info before after order) s ≡ ok (taken order prev next before after s)
  unfolding unlink taken relink_if set_next set_prev set_head write
  unlink-ok none none a b = rw (frame_word none tt, frame_word none tt) refl
  unlink-ok none (some n) a b =
      let at_n = linked.nexts order p n free_p b in
      rw
        (
          frame_word none tt,
          frame_word (some n) (subst Linkable b (next-Linkable order p free_p)),
          relink-ok n order (set_prev (P2Frame.new none order)) (prev n) (next n)
              (set_head order (some n) s) (linked.words order n at_n.0)
              (prev-Linkable order n at_n.0) small,
        )
        refl
  unlink-ok (some r) none a b =
      let at_r = linked.prevs order p r free_p a in
      rw
        (
          frame_word none tt,
          frame_word (some r) (subst Linkable a (prev-Linkable order p free_p)),
          relink-ok r order (set_next (P2Frame.new none order)) (prev r) (next r) s
              (linked.words order r at_r.0) (prev-Linkable order r at_r.0) small,
        )
        refl
  unlink-ok (some r) (some n) a b =
      let at_r = linked.prevs order p r free_p a in
      let at_n = linked.nexts order p n free_p b in
      let s1 = write r (free_info (prev r) (some n) order) s in
      let other : s1.infos n ≡ some (free_info (prev n) (next n) order) =
        put_other s.infos r n (some (free_info (prev r) (some n) order)) (apart r n a b)
        ∙ linked.words order n at_n.0 in
      rw
        (
          frame_word (some n) (subst Linkable b (next-Linkable order p free_p)),
          frame_word (some r) (subst Linkable a (prev-Linkable order p free_p)),
          relink-ok r order (set_next (P2Frame.new (some n) order)) (prev r) (next r) s
              (linked.words order r at_r.0) (prev-Linkable order r at_r.0) small,
          relink-ok n order (set_prev (P2Frame.new (some r) order)) (prev n) (next n) s1 other
              (prev-Linkable order n at_n.0) small,
        )
        refl

  -- The head of a list is taken out by its successor's link alone.
  pub unlink_head-ok :
      (after : Option ℕ)
      → next p ≡ after
      → (s1 : Allocator) × (relink_if after (set_prev (P2Frame.new none order)) s ≡ ok s1)
        × (set_head order after s1 ≡ taken order prev next none after s)
  unfolding taken relink_if set_prev set_head write
  unlink_head-ok none b = (s, refl, refl)
  unlink_head-ok (some n) b =
      let at_n = linked.nexts order p n free_p b in
      (
        write n (free_info none (next n) order) s,
        relink-ok n order (set_prev (P2Frame.new none order)) (prev n) (next n) s
            (linked.words order n at_n.0) (prev-Linkable order n at_n.0) small,
        refl,
      )

  pub taken-IsUnlinked :
      (before after : Option ℕ)
      → prev p ≡ before
      → next p ≡ after
      → IsUnlinked order p prev next s (taken order prev next before after s)
  unfolding taken write set_head put put_if
  taken-IsUnlinked none none a b = record {
    rewritten = λ (q : ℕ) w. ground (arith, w, a, b);
    others = λ (q : ℕ) m n. refl;
    head = λ (o : ℕ). ground (arith, a, b);
  }
  taken-IsUnlinked none (some n) a b = record {
    rewritten = λ (q : ℕ) w. ground (arith, w, a, b);
    others = λ (q : ℕ) h k. ground (arith, a, b, k);
    head = λ (o : ℕ). ground (arith, a, b);
  }
  taken-IsUnlinked (some r) none a b = record {
    rewritten = λ (q : ℕ) w. ground (arith, w, a, b);
    others = λ (q : ℕ) h k. ground (arith, a, b, h);
    head = λ (o : ℕ). ground (arith, a, b);
  }
  taken-IsUnlinked (some r) (some n) a b =
      let n_r = apart r n a b in
      record {
        rewritten = λ (q : ℕ) w. ground (arith, w, a, b, n_r);
        others = λ (q : ℕ) h k. ground (arith, a, b, h, k);
        head = λ (o : ℕ). ground (arith, a, b);
      }

pub taken_used :
    (order : ℕ) (prev next : ℕ → Option ℕ) (before after : Option ℕ) (s : Allocator)
    → (taken order prev next before after s).used_frames ≡ s.used_frames
unfolding taken write set_head
taken_used order prev next none none s = refl
taken_used order prev next none (some n) s = refl
taken_used order prev next (some r) none s = refl
taken_used order prev next (some r) (some n) s = refl
