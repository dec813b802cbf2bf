-- ===== src/Memory/Buddy/Heads.antt =====
-- A free block becomes the head of its list: src/memory/mod.rs, the ends of `deallocate_p2frame`
-- and of the splitting loop.
use redox_kernel.Common.{
  ℕ, suc, ◌^◌, ◌<◌, ◌≡◌, ◌≢◌, ◌∙◌, ap, sym, refl, subst, Option, none, some, true, false, ◌==◌,
  if◌then◌else◌, arith, Bool-cases, ◌⊎◌, inl, inr,
}
use redox_kernel.Memory.Buddy.{Allocator, put, order_count}
use redox_kernel.Memory.Buddy.Words.{free_info}
use redox_kernel.Memory.Buddy.Lists.{Linked, put_if, put_if-cases}

-- What changes as the block at `p` becomes the head of the list of `order`
pub record IsPushed (order p : ℕ) (prev next : ℕ → Option ℕ) (s t : Allocator) : Type 0 where
  pub new_words : t.infos p ≡ some (free_info none (s.for_orders order) order)
  pub old_words :
      (q : ℕ)
      → s.for_orders order ≡ some q
      → s.infos q ≡ some (free_info (prev q) (next q) order)
      → t.infos q ≡ some (free_info (some p) (next q) order)
  pub others : (q : ℕ) → q ≢ p → s.for_orders order ≢ some q → t.infos q ≡ s.infos q
  pub head : (o : ℕ) → t.for_orders o ≡ (if o == order then some p else s.for_orders o)

pub put-cases :
    {A : Type 0} (f : ℕ → A) (i : ℕ) (a : A) (j : ℕ)
    → ((j ≡ i) × (put f i a j ≡ a)) ⊎ ((j ≢ i) × (put f i a j ≡ f j))
unfolding put
put-cases f i a j = elim (Bool-cases (j == i)) [
  | inl same ↦ inl (ground arith, rw same refl)
  | inr other ↦ inr (λ e. ground arith, rw other refl)
]

module _ (is_free is_free' : ℕ → ℕ → Type 0) (prev next : ℕ → Option ℕ) (rank : ℕ → ℕ)
    (s t : Allocator) (order p : ℕ) (linked : Linked is_free prev next rank s)
    (frame_p : (order < order_count) × (0 < p) × (p < 2 ^ 51))
    (fresh : (o q : ℕ) → is_free o q → q ≢ p) (new : is_free' order p)
    (kept : (o q : ℕ) → is_free o q → is_free' o q)
    (was : (o q : ℕ) → is_free' o q → is_free o q ⊎ ((o ≡ order) × (q ≡ p)))
    (pushed : IsPushed order p prev next s t) where
  abbrev old : Option ℕ
  old = s.for_orders order

  abbrev new_prev : ℕ → Option ℕ
  new_prev = put (put_if old (some p) prev) p none

  abbrev new_next : ℕ → Option ℕ
  new_next = put next p old

  abbrev new_rank : ℕ → ℕ
  new_rank = put (λ q. suc (rank q)) p 0

  at_new : (new_prev p ≡ none) × (new_next p ≡ old) × (new_rank p ≡ 0)
  unfolding put
  at_new = let same : (p == p) ≡ true = ground arith in (rw same refl, rw same refl, rw same refl)

  at_old :
      (q : ℕ)
      → q ≢ p
      → (new_prev q ≡ put_if old (some p) prev q)
        × (new_next q ≡ next q)
        × (new_rank q ≡ suc (rank q))
  unfolding put
  at_old q n =
      let other : (q == p) ≡ false = ground (arith, n) in
      (rw other refl, rw other refl, rw other refl)

  sizes' : (o o' q : ℕ) → is_free' o q → is_free' o' q → o ≡ o'
  sizes' o o' q f g = elim (was o q f) [
    | inl a ↦ elim (was o' q g) [
      | inl b ↦ linked.sizes o o' q a b
      | inr b ↦ absurd (fresh o q a b.1)
    ]
    | inr a ↦ elim (was o' q g) [ inl b ↦ absurd (fresh o' q b a.1) | inr b ↦ a.0 ∙ sym b.0 ]
  ]

  frames' : (o q : ℕ) → is_free' o q → (o < order_count) × (0 < q) × (q < 2 ^ 51)
  frames' o q f = elim (was o q f) [ inl a ↦ linked.frames o q a | inr (a, b) ↦ rw (a, b) frame_p ]

  old_prev : (q : ℕ) → old ≡ some q → put_if old (some p) prev q ≡ some p
  old_prev q e = elim (put_if-cases old (some p) prev q) [
    | inl (l, h) ↦ h
    | inr (l, h) ↦ absurd (l e)
  ]

  words' : (o q : ℕ) → is_free' o q → t.infos q ≡ some (free_info (new_prev q) (new_next q) o)
  words' o q f' = elim (was o q f') [
    | inr (a, b) ↦ rw (a, b, at_new.0, at_new.1) pushed.new_words
    | inl f ↦
        let w = linked.words o q f in
        let c = at_old q (fresh o q f) in
        elim (put_if-cases old (some p) prev q) [
          | inl (l, h) ↦
              let e = linked.sizes o order q f (linked.heads order q l).0 in
              rw (c.0, c.1, h, e)
                (pushed.old_words q l (linked.words order q (linked.heads order q l).0))
          | inr (l, h) ↦ pushed.others q (fresh o q f) l ∙ w ∙ rw (c.0, c.1, h) refl
        ]
  ]

  nexts' : (o q r : ℕ) → is_free' o q → new_next q ≡ some r → is_free' o r × (new_prev r ≡ some q)
  nexts' o q r f' e = elim (was o q f') [
    | inr (a, b) ↦
        let l : old ≡ some r = sym at_new.1 ∙ ap new_next (sym b) ∙ e in
        let f = (linked.heads order r l).0 in
        (
          subst (λ k. is_free' k r) (sym a) (kept order r f),
          (at_old r (fresh order r f)).0 ∙ old_prev r l ∙ ap some (sym b),
        )
    | inl f ↦
        let at_r = linked.nexts o q r f (sym (at_old q (fresh o q f)).1 ∙ e) in
        (
          kept o r at_r.0,
          (at_old r (fresh o r at_r.0)).0 ∙ elim (put_if-cases old (some p) prev r) [
            | inl (l, h) ↦ ground (arith, at_r.1, linked.heads order r l)
            | inr (l, h) ↦ h ∙ at_r.1
          ],
        )
  ]

  prevs' :
      (o q r : ℕ)
      → is_free' o q
      → new_prev q ≡ some r
      → is_free' o r × (new_next r ≡ some q) × (new_rank r < new_rank q)
  prevs' o q r f' e = elim (was o q f') [
    | inr (a, b) ↦ ground (arith, at_new.0, ap new_prev b, e)
    | inl f ↦
        let c = at_old q (fresh o q f) in
        elim (put_if-cases old (some p) prev q) [
          | inl (l, h) ↦
              let same = linked.sizes o order q f (linked.heads order q l).0 in
              let eq : r ≡ p = ground (arith, e, c.0, h) in
              (rw (eq, same) new, rw eq (at_new.1 ∙ l), rw (eq, at_new.2, c.2) (omega arith))
          | inr (l, h) ↦
              let at_r = linked.prevs o q r f (sym h ∙ sym c.0 ∙ e) in
              let d = at_old r (fresh o r at_r.0) in
              (kept o r at_r.0, d.1 ∙ at_r.1, rw (d.2, c.2) (omega (arith, at_r.2)))
        ]
  ]

  firsts' : (o q : ℕ) → is_free' o q → new_prev q ≡ none → t.for_orders o ≡ some q
  firsts' o q f' e = elim (was o q f') [
    | inr (a, b) ↦ ground (arith, pushed.head o, a, b)
    | inl f ↦
        let c = at_old q (fresh o q f) in
        elim (put_if-cases old (some p) prev q) [
          | inl (l, h) ↦ ground (arith, e, c.0, h)
          | inr (l, h) ↦
              let first = linked.firsts o q f (sym h ∙ sym c.0 ∙ e) in
              elim (Bool-cases (o == order)) [
                | inl same ↦
                    let eq : o ≡ order = ground arith in
                    absurd (l (subst (λ k. s.for_orders k ≡ some q) eq first))
                | inr other ↦ ground (arith, pushed.head o, first, other)
              ]
        ]
  ]

  heads' : (o q : ℕ) → t.for_orders o ≡ some q → is_free' o q × (new_prev q ≡ none)
  heads' o q e = elim (Bool-cases (o == order)) [
    | inl same ↦
        let eq : o ≡ order = ground arith in
        let at_p : q ≡ p = ground (arith, pushed.head o) in (rw (eq, at_p) new, rw at_p at_new.0)
    | inr other ↦
        let at_q = linked.heads o q (ground (arith, pushed.head o)) in
        (
          kept o q at_q.0,
          (at_old q (fresh o q at_q.0)).0 ∙ elim (put_if-cases old (some p) prev q) [
            | inl (l, h) ↦ ground (arith, linked.sizes o order q at_q.0 (linked.heads order q l).0)
            | inr (l, h) ↦ h ∙ at_q.1
          ],
        )
  ]

  pub Linked-push : Linked is_free' new_prev new_next new_rank t
  Linked-push = record {
    sizes = sizes';
    frames = frames';
    words = words';
    nexts = nexts';
    prevs = prevs';
    firsts = firsts';
    heads = heads';
  }
