-- ===== src/Memory/Buddy/Valid.antt =====
-- The invariant of the frame allocator of src/memory/mod.rs, and what changes in it as a block
-- moves between the lists, the allocator's hands and its users.
use redox_kernel.Common.{
  ℕ, ◌≡◌, ◌≢◌, ◌∙◌, ap, sym, refl, Option, none, some, ◌==◌, arith, Bool-cases, ◌⊎◌, inl, inr,
  is_some,
}
use redox_kernel.Memory.PageInfo.{PageInfo, as_free}
use redox_kernel.Memory.Buddy.{Allocator}
use redox_kernel.Memory.Buddy.Lists.{Linked, IsUnlinked, Linked-unlink}
use redox_kernel.Memory.Buddy.Layout.{Status, Blocks, Block, Layout, mark, Layout-mark}
use redox_kernel.Memory.Buddy.Layout.Status.{free, used, held}
use redox_kernel.Memory.Buddy.Marks.{Block-kept, Block-was}

-- The blocks are whole, the free ones are in the lists of their orders, and the first frame of a
-- block in use is marked as used. The words of other frames can be anything.
pub record IsValid (g : Blocks) (s : Allocator) : Type 0 where
  pub prev : ℕ → Option ℕ
  pub next : ℕ → Option ℕ
  pub rank : ℕ → ℕ
  pub layout : Layout g
  pub linked : Linked (Block g free) prev next rank s
  pub infos : (p : ℕ) → is_some (s.infos p) ≡ g.known p
  pub marks :
      (o p : ℕ) (info : PageInfo) → Block g used o p → s.infos p ≡ some info → as_free info ≡ none

-- The statuses differ.
pub free-held : free ≢ held
free-held e = ground (arith, e)

pub held-free : held ≢ free
held-free e = ground (arith, e)

pub free-used : free ≢ used
free-used e = ground (arith, e)

pub used-held : used ≢ held
used-held e = ground (arith, e)

pub used-free : used ≢ free
used-free e = ground (arith, e)

pub status_apart :
    (g : Blocks) (st st' : Status) (o o' p q : ℕ)
    → st ≢ st'
    → Block g st o p
    → Block g st' o' q
    → q ≢ p
status_apart g st st' o o' p q n b c e = n (sym b.1 ∙ ap g.status (sym e) ∙ c.1)

pub link-cases : (link : Option ℕ) (q : ℕ) → (link ≡ some q) ⊎ (link ≢ some q)
link-cases none q = inr λ e. ground (arith, e)
link-cases (some r) q = elim (Bool-cases (r == q)) [
  | inl same ↦ inl (ground (arith, same))
  | inr other ↦ inr λ e. ground (arith, e, other)
]

module _ (g : Blocks) (s t : Allocator) (v : IsValid g s) (o p : ℕ) where
  unlinked_present :
      Block g free o p
      → IsUnlinked o p v.prev v.next s t
      → (q : ℕ) → is_some (t.infos q) ≡ is_some (s.infos q)
  unlinked_present b u q = elim (link-cases (v.prev p) q) [
    | inl e ↦ in_list (v.linked.prevs o p q b e).0
    | inr n ↦ elim (link-cases (v.next p) q) [
      | inl e ↦ in_list (v.linked.nexts o p q b e).0
      | inr m ↦ ap is_some (u.others q n m)
    ]
  ]
    where
      in_list : Block g free o q → is_some (t.infos q) ≡ is_some (s.infos q)
      in_list c = let w = v.linked.words o q c in rw (u.rewritten q w, w) refl

  unlinked_others :
      Block g free o p
      → IsUnlinked o p v.prev v.next s t
      → (q : ℕ) → ¬ Block g free o q
      → t.infos q ≡ s.infos q
  unlinked_others b u q n =
      u.others q (λ e. n (v.linked.prevs o p q b e).0) (λ e. n (v.linked.nexts o p q b e).0)

  -- A block that is taken out of its list is held.
  pub IsValid-unlink :
      Block g free o p → IsUnlinked o p v.prev v.next s t → IsValid (mark held o p g) t
  unfolding mark
  IsValid-unlink b u = record {
    prev = _;
    next = _;
    rank = v.rank;
    layout = Layout-mark g v.layout held o p b.0 b.2;
    linked =
        Linked-unlink (Block g free) (Block (mark held o p g) free) v.prev v.next v.rank s t o p
          v.linked b (Block-kept g v.layout held free o p b free)
          (λ o' q. Block-was g v.layout held free o p b free o' q free-held) u;
    infos = λ (q : ℕ). unlinked_present b u q ∙ v.infos q;
    marks = λ (o' q : ℕ) info c e.
        let was = (Block-was g v.layout held free o p b used o' q used-held c).0 in
        let same = unlinked_others b u q (λ f. used-free (sym was.1 ∙ f.1)) in
        v.marks o' q info was (sym same ∙ e);
  }
