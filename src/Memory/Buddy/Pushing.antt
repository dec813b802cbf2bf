-- ===== src/Memory/Buddy/Pushing.antt =====
-- The end of `deallocate_p2frame`, src/memory/mod.rs: the block becomes the head of its list.
use redox_kernel.Common.{
  ℕ, ◌<◌, ◌≡◌, ◌≢◌, ◌∙◌, refl, subst, Option, none, some, true, ◌==◌, ltb, arith, Option-cases, inl,
  inr, ok, zero-bit_or,
}
use redox_kernel.Memory.PageInfo.{PageInfo, make_free}
use redox_kernel.Memory.Buddy.{
  Allocator, put, write, set_head, set_next, set_prev, get_free_alloc_page_info, link_heads,
  push_block, order_count,
}
use redox_kernel.Memory.Buddy.P2Frame
use redox_kernel.Memory.Buddy.P2Frame.{page_size}
use redox_kernel.Memory.Buddy.Words.{free_info, as_free-free_info, Linkable}
use redox_kernel.Memory.Buddy.Heads.{IsPushed}
use redox_kernel.Memory.Buddy.Layout.{Blocks, Block, mark}
use redox_kernel.Memory.Buddy.Layout.Status.{free, held}
use redox_kernel.Memory.Buddy.Valid.{IsValid, status_apart, held-free}
use redox_kernel.Memory.Buddy.Changes.{IsValid-push}
use redox_kernel.Memory.Buddy.Unlink.{relink-ok, prev-Linkable, put_other}

-- The state after a block at `p` has become the head of the list of `order`
unfoldable pushed : ℕ → ℕ → (ℕ → Option ℕ) → Option ℕ → Allocator → Allocator
pushed order p next none s = set_head order (some p) (write p (free_info none none order) s)
pushed order p next (some h) s = write h (free_info (some p) (next h) order) (
    write p (free_info none (some h) order)
      (set_head order (some p) (write p (free_info none none order) s)))

fresh_info : (order : ℕ) (i : PageInfo) → make_free order i ≡ free_info none none order
unfolding P2Frame.new make_free
fresh_info order i = rw (zero-bit_or order) refl

pushed-IsPushed :
    (order p : ℕ) (prev next : ℕ → Option ℕ) (s : Allocator) (old : Option ℕ)
    → s.for_orders order ≡ old
    → old ≢ some p
    → IsPushed order p prev next s (pushed order p next old s)
unfolding pushed write set_head put
pushed-IsPushed order p prev next s none e n = record {
  new_words = ground (arith, e);
  old_words = λ (q : ℕ) h w. ground (arith, e, h);
  others = λ (q : ℕ) a h. ground (arith, a);
  head = λ (o : ℕ). refl;
}
pushed-IsPushed order p prev next s (some h) e n = record {
  new_words = ground (arith, e, n);
  old_words = λ (q : ℕ) k w. ground (arith, e, k);
  others = λ (q : ℕ) a k. ground (arith, a, e, k);
  head = λ (o : ℕ). refl;
}

pushed_used :
    (order p : ℕ) (next : ℕ → Option ℕ) (old : Option ℕ) (s : Allocator)
    → (pushed order p next old s).used_frames ≡ s.used_frames
unfolding pushed write set_head
pushed_used order p next none s = refl
pushed_used order p next (some h) s = refl

push_block-steps :
    (order p : ℕ) (info : PageInfo) (s t : Allocator)
    → s.infos p ≡ some info
    → order < order_count
    → link_heads order p
        (s.for_orders order)
        (set_head order (some p) (write p (free_info none none order) s))
      ≡ ok t
    → push_block order p s ≡ ok t
unfolding push_block
push_block-steps order p info s t a l b =
    let small : ltb order order_count ≡ true = ground arith in
    rw (a, fresh_info order info, small, b) refl

get_free-ok :
    (r o : ℕ) (a b : Option ℕ) (s : Allocator)
    → s.infos r ≡ some (free_info a b o)
    → Linkable a
    → o < order_count
    → get_free_alloc_page_info r s ≡ ok (free_info a b o)
unfolding get_free_alloc_page_info
get_free-ok r o a b s e l h = rw (e, as_free-free_info a b o l (ground arith)) refl

put_self : {A : Type 0} (f : ℕ → A) (i : ℕ) (a : A) → put f i a i ≡ a
unfolding put
put_self f i a = let same : (i == i) ≡ true = ground arith in rw same refl

link_heads-ok :
    (order p : ℕ) (prev next : ℕ → Option ℕ) (old : Option ℕ) (s : Allocator)
    → order < order_count
    → ((h : ℕ)
        → old ≡ some h
        → (h ≢ p) × Linkable (prev h) × (s.infos h ≡ some (free_info (prev h) (next h) order)))
    → link_heads order p old (set_head order (some p) (write p (free_info none none order) s))
      ≡ ok (pushed order p next old s)
unfolding link_heads pushed write set_head set_next set_prev
link_heads-ok order p prev next none s l at = refl
link_heads-ok order p prev next (some h) s l at =
    let at_h = at h refl in
    let s0 = set_head order (some p) (write p (free_info none none order) s) in
    let s1 = write p (free_info none (some h) order) s0 in
    let apart_h : s0.infos h ≡ some (free_info (prev h) (next h) order) =
      put_other s.infos p h (some (free_info none none order)) at_h.0 ∙ at_h.2 in
    let apart_h' : s1.infos h ≡ some (free_info (prev h) (next h) order) =
      put_other s0.infos p h (some (free_info none (some h) order)) at_h.0 ∙ apart_h in
    let at_p : s0.infos p ≡ some (free_info none none order) =
      put_self s.infos p (some (free_info none none order)) in
    rw
      (
        get_free-ok h order (prev h) (next h) s0 apart_h at_h.1 l,
        relink-ok p order
            (λ i. set_prev (P2Frame.new none order) (set_next (P2Frame.new (some h) order) i)) none
            none s0 at_p tt l,
        relink-ok h order (set_prev (P2Frame.new (some p) order)) (prev h) (next h) s1 apart_h'
            at_h.1 l,
      )
      refl

push-ok :
    (g : Blocks) (s : Allocator) (order p : ℕ) (v : IsValid g s)
    → Block g held order p
    → push_block order p s ≡ ok (pushed order p v.next (s.for_orders order) s)
push-ok g s order p v b = elim (Option-cases (s.infos p)) [
  | inl h ↦ ground (arith, h, v.infos p, b.0)
  | inr (info, h) ↦
      let small = subst (λ m. m < order_count) b.2 (v.layout.orders p b.0) in
      push_block-steps order p info s (pushed order p v.next (s.for_orders order) s) h small (
        link_heads-ok order p v.prev v.next (s.for_orders order) s small λ x e.
          let c = (v.linked.heads order x e).0 in
          (
            status_apart g held free order order p x held-free b c,
            prev-Linkable (Block g free) v.prev v.next v.rank s order x v.linked c order x c,
            v.linked.words order x c,
          ))
]

-- What the end of `deallocate_p2frame` leaves
pub push-Pushed :
    (g : Blocks) (s : Allocator) (order p : ℕ)
    → IsValid g s
    → Block g held order p
    → (t : Allocator) × (push_block order p s ≡ ok t)
      × IsValid (mark free order p g) t
      × (t.used_frames ≡ s.used_frames)
push-Pushed g s order p v b =
    let t = pushed order p v.next (s.for_orders order) s in
    let fresh : s.for_orders order ≢ some p =
      λ e. status_apart g held free order order p p held-free b (v.linked.heads order p e).0 refl in
    (
      t,
      push-ok g s order p v b,
      IsValid-push g s t v order p b
          (pushed-IsPushed order p v.prev v.next s (s.for_orders order) refl fresh),
      pushed_used order p v.next (s.for_orders order) s,
    )
