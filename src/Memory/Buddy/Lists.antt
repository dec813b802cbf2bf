-- ===== src/Memory/Buddy/Lists.antt =====
-- The free lists of src/memory/mod.rs as a doubly linked structure: one block is taken out of
-- its list, or becomes the head of one.
use redox_kernel.Common.{
  ℕ, ◌^◌, ◌<◌, ◌≡◌, ◌≢◌, ◌∙◌, ap, sym, refl, subst, Option, none, some, ◌==◌, if◌then◌else◌, arith,
  Bool-cases, Option-cases, ◌⊎◌, inl, inr,
}
use redox_kernel.Memory.Buddy.{Allocator, put, order_count}
use redox_kernel.Memory.Buddy.Words.{free_info}

-- `is_free o p`: a free block of order `o` starts at `p`. The frames before and after it in its
-- list are `prev` and `next`, and `rank` grows along the list.
pub record Linked (is_free : ℕ → ℕ → Type 0) (prev next : ℕ → Option ℕ) (rank : ℕ → ℕ)
    (s : Allocator) : Type 0 where
  pub sizes : (o o' p : ℕ) → is_free o p → is_free o' p → o ≡ o'
  pub frames : (o p : ℕ) → is_free o p → (o < order_count) × (0 < p) × (p < 2 ^ 51)
  pub words : (o p : ℕ) → is_free o p → s.infos p ≡ some (free_info (prev p) (next p) o)
  pub nexts : (o p q : ℕ) → is_free o p → next p ≡ some q → is_free o q × (prev q ≡ some p)
  pub prevs :
      (o p q : ℕ)
      → is_free o p
      → prev p ≡ some q
      → is_free o q × (next q ≡ some p) × (rank q < rank p)
  pub firsts : (o p : ℕ) → is_free o p → prev p ≡ none → s.for_orders o ≡ some p
  pub heads : (o p : ℕ) → s.for_orders o ≡ some p → is_free o p × (prev p ≡ none)

-- One entry replaced, if there is a link
unfoldable pub put_if : Option ℕ → Option ℕ → (ℕ → Option ℕ) → ℕ → Option ℕ
unfolding put
put_if none v f = f
put_if (some r) v f = put f r v

-- What every free list but the block at `p` says after `p` has been taken out
pub record IsUnlinked (order p : ℕ) (prev next : ℕ → Option ℕ) (s t : Allocator) : Type 0 where
  pub rewritten :
      (q : ℕ)
      → s.infos q ≡ some (free_info (prev q) (next q) order)
      → t.infos q
        ≡ some (free_info (put_if (next p) (prev p) prev q) (put_if (prev p) (next p) next q) order)
  pub others : (q : ℕ) → prev p ≢ some q → next p ≢ some q → t.infos q ≡ s.infos q
  pub head :
      (o : ℕ)
      → t.for_orders o ≡ elim (prev p) [
        | none ↦ if o == order then next p else s.for_orders o
        | some r ↦ s.for_orders o
      ]

pub put_if-cases :
    (link v : Option ℕ) (f : ℕ → Option ℕ) (q : ℕ)
    → ((link ≡ some q) × (put_if link v f q ≡ v)) ⊎ ((link ≢ some q) × (put_if link v f q ≡ f q))
unfolding put_if
put_if-cases none v f q = inr (λ e. ground (arith, e), refl)
put_if-cases (some r) v f q = elim (Bool-cases (q == r)) [
  | inl same ↦ inl (ground arith, ground (arith, same))
  | inr other ↦ inr (λ e. ground arith, ground (arith, other))
]

module _ (is_free is_free' : ℕ → ℕ → Type 0) (prev next : ℕ → Option ℕ) (rank : ℕ → ℕ)
    (s t : Allocator) (order p : ℕ) (linked : Linked is_free prev next rank s)
    (free_p : is_free order p) (kept : (o q : ℕ) → is_free o q → q ≢ p → is_free' o q)
    (was : (o q : ℕ) → is_free' o q → is_free o q × (q ≢ p))
    (unlinked : IsUnlinked order p prev next s t) where
  below : {a b : ℕ} → a ≡ b → a < b → ⊥
  below e l = omega arith

  abbrev new_prev : ℕ → Option ℕ
  new_prev q = put_if (next p) (prev p) prev q

  abbrev new_next : ℕ → Option ℕ
  new_next q = put_if (prev p) (next p) next q

  words' : (o q : ℕ) → is_free' o q → t.infos q ≡ some (free_info (new_prev q) (new_next q) o)
  words' o q f' =
      let f = (was o q f').0 in
      let w = linked.words o q f in
      let in_list : is_free order q → t.infos q ≡ some (free_info (new_prev q) (new_next q) o) =
        λ g.
          let e = linked.sizes o order q f g in
          rw e (unlinked.rewritten q (linked.words order q g)) in
      elim (put_if-cases (next p) (prev p) prev q) [
        | inl (e, h) ↦ in_list (linked.nexts order p q free_p e).0
        | inr (n, h) ↦ elim (put_if-cases (prev p) (next p) next q) [
          | inl (e, k) ↦ in_list (linked.prevs order p q free_p e).0
          | inr (m, k) ↦ unlinked.others q m n ∙ w ∙ rw (h, k) refl
        ]
      ]

  nexts' : (o q r : ℕ) → is_free' o q → new_next q ≡ some r → is_free' o r × (new_prev r ≡ some q)
  nexts' o q r f' e = elim (put_if-cases (prev p) (next p) next q) [
    | inl (before, h) ↦
        let after : next p ≡ some r = sym h ∙ e in
        let at_r = linked.nexts order p r free_p after in
        let same = linked.sizes o order q (was o q f').0 (linked.prevs order p q free_p before).0 in
        let apart = linked.prevs order r p at_r.0 at_r.1 in
        (
          subst (λ k. is_free' k r) (sym same)
              (kept order r at_r.0 (λ eq. below (sym (ap rank eq)) apart.2)),
          elim (put_if-cases (next p) (prev p) prev r) [
            | inl (l, k) ↦ k ∙ before
            | inr (l, k) ↦ absurd (l after)
          ],
        )
    | inr (before, h) ↦
        let at_r = linked.nexts o q r (was o q f').0 (sym h ∙ e) in
        (
          kept o r at_r.0 (λ eq. before (ap prev (sym eq) ∙ at_r.1)),
          elim (put_if-cases (next p) (prev p) prev r) [
            | inl (l, k) ↦
                absurd ((was o q f').1 (ground (arith, at_r.1, linked.nexts order p r free_p l)))
            | inr (l, k) ↦ k ∙ at_r.1
          ],
        )
  ]

  prevs' :
      (o q r : ℕ)
      → is_free' o q
      → new_prev q ≡ some r
      → is_free' o r × (new_next r ≡ some q) × (rank r < rank q)
  prevs' o q r f' e = elim (put_if-cases (next p) (prev p) prev q) [
    | inl (after, h) ↦
        let before : prev p ≡ some r = sym h ∙ e in
        let at_r = linked.prevs order p r free_p before in
        let at_q = linked.nexts order p q free_p after in
        let same = linked.sizes o order q (was o q f').0 at_q.0 in
        let above = linked.prevs order q p at_q.0 at_q.1 in
        (
          subst (λ k. is_free' k r) (sym same)
              (kept order r at_r.0 (λ eq. below (ap rank eq) at_r.2)),
          elim (put_if-cases (prev p) (next p) next r) [
            | inl (l, k) ↦ k ∙ after
            | inr (l, k) ↦ absurd (l before)
          ],
          omega (arith, at_r.2, above.2),
        )
    | inr (after, h) ↦
        let at_r = linked.prevs o q r (was o q f').0 (sym h ∙ e) in
        (
          kept o r at_r.0 (λ eq. after (ap next (sym eq) ∙ at_r.1)),
          elim (put_if-cases (prev p) (next p) next r) [
            | inl (l, k) ↦
                absurd ((was o q f').1 (ground (arith, at_r.1, linked.prevs order p r free_p l)))
            | inr (l, k) ↦ k ∙ at_r.1
          ],
          at_r.2,
        )
  ]

  firsts' : (o q : ℕ) → is_free' o q → new_prev q ≡ none → t.for_orders o ≡ some q
  firsts' o q f' e = elim (put_if-cases (next p) (prev p) prev q) [
    | inl (after, h) ↦
        let at_q = linked.nexts order p q free_p after in
        let same = linked.sizes o order q (was o q f').0 at_q.0 in
        ground (arith, unlinked.head o, same, after, sym h ∙ e)
    | inr (after, h) ↦ ground (
      arith,
      unlinked.head o,
      linked.firsts o q (was o q f').0 (sym h ∙ e),
      linked.firsts order p free_p,
      (was o q f').1,
    )
  ]

  new_prev-first : (q : ℕ) → prev q ≡ none → new_prev q ≡ none
  new_prev-first q e = elim (put_if-cases (next p) (prev p) prev q) [
    | inl (after, h) ↦ ground (arith, e, linked.nexts order p q free_p after)
    | inr (after, h) ↦ h ∙ e
  ]

  new_prev-none : (q : ℕ) → prev p ≡ none → next p ≡ some q → new_prev q ≡ none
  new_prev-none q first e = elim (put_if-cases (next p) (prev p) prev q) [
    | inl (after, h) ↦ h ∙ first
    | inr (after, h) ↦ absurd (after e)
  ]

  heads' : (o q : ℕ) → t.for_orders o ≡ some q → is_free' o q × (new_prev q ≡ none)
  heads' o q e = elim (Option-cases (prev p)) [
    | inl first ↦ elim (Bool-cases (o == order)) [
      | inl same ↦
          let eq : o ≡ order = ground arith in
          let after : next p ≡ some q = ground (arith, unlinked.head o) in
          let at_q = linked.nexts order p q free_p after in
          let above = linked.prevs order q p at_q.0 at_q.1 in
          (
            subst (λ k. is_free' k q) (sym eq)
                (kept order q at_q.0 (λ x. below (sym (ap rank x)) above.2)),
            new_prev-none q first after,
          )
      | inr other ↦
          let at_q = linked.heads o q (ground (arith, unlinked.head o)) in
          (
            kept o q at_q.0
                (λ x. ground (arith, linked.sizes o order p (subst (is_free o) x at_q.0) free_p)),
            new_prev-first q at_q.1,
          )
    ]
    | inr (r, before) ↦
        let at_q = linked.heads o q (ground (arith, unlinked.head o)) in
        (kept o q at_q.0 (λ x. ground (arith, ap prev x, before, at_q.1)), new_prev-first q at_q.1)
  ]

  -- Block `p` is out of its list.
  pub Linked-unlink : Linked is_free' new_prev new_next rank t
  Linked-unlink = record {
    sizes = λ o o' q f g. linked.sizes o o' q (was o q f).0 (was o' q g).0;
    frames = λ o q f. linked.frames o q (was o q f).0;
    words = words';
    nexts = nexts';
    prevs = prevs';
    firsts = firsts';
    heads = heads';
  }

-- The same free blocks, in the same lists.
pub Linked-same :
    (is_free is_free' : ℕ → ℕ → Type 0) (prev next : ℕ → Option ℕ) (rank : ℕ → ℕ) (s t : Allocator)
    → Linked is_free prev next rank s
    → ((o q : ℕ) → is_free o q → is_free' o q)
    → ((o q : ℕ) → is_free' o q → is_free o q)
    → ((o : ℕ) → t.for_orders o ≡ s.for_orders o)
    → ((o q : ℕ) → is_free o q → t.infos q ≡ s.infos q)
    → Linked is_free' prev next rank t
Linked-same is_free is_free' prev next rank s t linked kept was heads infos = record {
  sizes = λ o o' q f g. linked.sizes o o' q (was o q f) (was o' q g);
  frames = λ o q f. linked.frames o q (was o q f);
  words = λ o q f. infos o q (was o q f) ∙ linked.words o q (was o q f);
  nexts = λ o q r f e. let a = linked.nexts o q r (was o q f) e in (kept o r a.0, a.1);
  prevs = λ o q r f e. let a = linked.prevs o q r (was o q f) e in (kept o r a.0, a.1, a.2);
  firsts = λ o q f e. heads o ∙ linked.firsts o q (was o q f) e;
  heads = λ o q e. let a = linked.heads o q (sym (heads o) ∙ e) in (kept o q a.0, a.1);
}
