-- ===== src/Memory/Grants/Rewrite.antt =====
-- What `AddrSpaceWrapper::mprotect` of src/context/memory.rs does with a grant that it has taken out.
use redox_kernel.Common.{
  ℕ, ◌-◌, ◌*◌, ◌<◌, ◌≡◌, ◌==◌, refl, inl, inr, none, some, true, false, if◌then◌else◌, arith,
  usize_mod, ok, err, eacces, Bool-cases, ap, ◌∙◌, sym,
}
use redox_kernel.Memory.Grants.{GrantInfo, Grant, Provider}
use redox_kernel.Memory.Grants.Provider.{
  allocated, allocated_shared, phys_borrowed, external, fmap_borrowed,
}
use redox_kernel.Memory.Grants.Table.{UserGrants, insert_grant}
use redox_kernel.Memory.Grants.Pages.{IsPart, PageView, page_view, page_seen, in_span, seen}
use redox_kernel.Memory.Grants.Runs.{run_at, run_of}
use redox_kernel.Memory.Grants.Insert.{WellFormed, insert_grant-WellFormed}
use redox_kernel.Memory.Grants.Munmap.{MapFlags}
use redox_kernel.Memory.Grants.Mprotect.{
  FlagOps, allocated_provider, can_have_flags, new_flags, rewrite, remap,
}

seen-allocated :
    (page_size k : ℕ) (p : Provider)
    → allocated_provider (seen page_size k p) ≡ allocated_provider p
seen-allocated page_size k (allocated none c) = refl
seen-allocated page_size k (allocated (some f) c) = refl
seen-allocated page_size k (allocated_shared pinned) = refl
seen-allocated page_size k (phys_borrowed b) = refl
seen-allocated page_size k (external a s pinned) = refl
seen-allocated page_size k (fmap_borrowed f n) = refl

-- Grants that show a page the same thing can have the same flags.
pub can_have_flags-seen :
    (page_size k l : ℕ) (ops : FlagOps) (flags : MapFlags) (i j : GrantInfo)
    → page_seen page_size k i ≡ page_seen page_size l j
    → (can_have_flags ops i flags ≡ can_have_flags ops j flags)
      × (i.flags ≡ j.flags)
      × (seen page_size k i.provider ≡ seen page_size l j.provider)
unfolding can_have_flags
can_have_flags-seen page_size k l ops flags i j e =
    let same_flags : i.flags ≡ j.flags = ap PageView.flags e in
    let same_backing : seen page_size k i.provider ≡ seen page_size l j.provider =
      ap PageView.backing e in
    let kind : allocated_provider i.provider ≡ allocated_provider j.provider =
      sym (seen-allocated page_size k i.provider)
      ∙ ap allocated_provider same_backing
      ∙ seen-allocated page_size l j.provider in
    (rw (kind, same_flags) refl, same_flags, same_backing)

-- What a page sees once its grant has other flags.
abbrev pub with_flags : ℕ → PageView → PageView
with_flags f v = record v { flags = f }

-- A grant that may have the flags goes back with them.
rewrite-steps :
    (page_size : ℕ) (ops : FlagOps) (flags : MapFlags) (u u' : UserGrants) (m changed : Grant)
    → can_have_flags ops m.info flags ≡ true
    → remap m (new_flags ops m.info.flags flags) ≡ ok changed
    → insert_grant page_size u changed ≡ ok u'
    → rewrite page_size ops u m flags ≡ (u', ok tt)
unfolding rewrite
rewrite-steps page_size ops flags u u' m changed granted moved done =
    rw (rewrite, granted) (rw moved (rw done refl))

module _ (page_size hi : ℕ) (positive : 0 < page_size) (words : hi * page_size < usize_mod)
    (ops : FlagOps) (flags : MapFlags) where
  module _ (u1 : UserGrants) (w : WellFormed page_size hi u1) (whole : Grant) (from count : ℕ)
      (m : Grant) (part : IsPart page_size hi whole from count m)
      (free : (p : ℕ) → in_span from count p ≡ true → page_view page_size u1.inner p ≡ none) where
    pub rewrite_refused :
        can_have_flags ops m.info flags ≡ false
        → (u' : UserGrants) × (rewrite page_size ops u1 m flags ≡ (u', err eacces))
          × WellFormed page_size hi u'
          × ((p : ℕ)
              → page_view page_size u'.inner p ≡ (
                  if in_span from count p
                  then some (page_seen page_size (p - whole.base) whole.info)
                  else page_view page_size u1.inner p))
          × ((p : ℕ)
              → run_at u'.inner p ≡ (if m.base == p then run_of m.info else run_at u1.inner p))
    unfolding rewrite
    rewrite_refused no_way =
        let done =
          insert_grant-WellFormed page_size hi positive words u1 w m part.2
            (λ p h. ground (arith, part.0, part.1, free p)) in
        (
          done.0,
          rw no_way (rw done.1 refl),
          done.2,
          λ p. ground (arith, part.0, part.1, done.3 p, part.3 p),
          done.4,
        )

    pub rewrite_granted :
        can_have_flags ops m.info flags ≡ true
        → (u' : UserGrants) × (rewrite page_size ops u1 m flags ≡ (u', ok tt))
          × WellFormed page_size hi u'
          × ((p : ℕ)
              → page_view page_size u'.inner p ≡ (
                  if in_span from count p
                  then some (
                      with_flags
                        (new_flags ops whole.info.flags flags)
                        (page_seen page_size (p - whole.base) whole.info))
                  else page_view page_size u1.inner p))
          × ((p : ℕ)
              → run_at u'.inner p ≡ (if m.base == p then run_of m.info else run_at u1.inner p))
    unfolding rewrite
    rewrite_granted granted =
        let changed : Grant = record m {
          info = record m.info { flags = new_flags ops m.info.flags flags };
        } in
        let done =
          insert_grant-WellFormed page_size hi positive words u1 w changed part.2
            (λ p h. ground (arith, part.0, part.1, free p)) in
        let moved : remap m (new_flags ops m.info.flags flags) ≡ ok changed =
          rw (remap, part.2.2) refl in
        (
          done.0,
          rewrite-steps page_size ops flags u1 done.0 m changed granted moved done.1,
          done.2,
          λ p. elim (Bool-cases (in_span from count p)) [
            | inl inside ↦
                let e = part.3 p inside in
                let f =
                  (can_have_flags-seen page_size (p - from) (p - whole.base) ops flags m.info
                    whole.info e).1 in
                let seen_new : with_flags (new_flags ops m.info.flags flags)
                      (page_seen page_size (p - from) m.info)
                    ≡ with_flags (new_flags ops whole.info.flags flags)
                        (page_seen page_size (p - whole.base) whole.info) =
                  ap
                    (λ x.
                      with_flags (new_flags ops x flags) (page_seen page_size (p - from) m.info))
                    f
                  ∙ ap (with_flags (new_flags ops whole.info.flags flags)) e in
                ground (arith, inside, part.0, part.1, done.3 p, seen_new)
            | inr outside ↦ ground (arith, outside, part.0, part.1, done.3 p)
          ],
          done.4,
        )
