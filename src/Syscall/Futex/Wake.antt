-- ===== src/Syscall/Futex/Wake.antt =====
-- `FUTEX_WAKE` of src/syscall/futex.rs: how many wait and how many are woken.
use redox_kernel.Common.{
  ℕ, zero, suc, ◌+◌, ◌-◌, ◌≤◌, ◌<◌, ◌≡◌, ap, sym, ◌∙◌, refl, min, Option, none, some, List, [], ◌∷◌,
  Bool, true, false, ltb, length, get_elem?, drop, arith, Bool-cases, Option-cases, inl, inr,
}
use redox_kernel.Common.OrdMap
use redox_kernel.Common.OrdMap.{OrdMap}
use redox_kernel.Context.Switch.{Context}
use redox_kernel.Syscall.Futex.{
  FutexEntry, Futexes, swap_remove, last_or, but_last, matches, unblock, wake_loop, futex_wake,
  keep, FutexList, entries,
}

abbrev pub bit : Bool → ℕ
bit true = 1
bit false = 0

abbrev pub count : (FutexEntry → Bool) → List FutexEntry → ℕ
count q [] = 0
count q (e ∷ es) = bit (q e) + count q es

-- The contexts of the entries are unblocked in turn.
abbrev pub unblock_all : List FutexEntry → OrdMap Context → OrdMap Context
unblock_all [] m = m
unblock_all (e ∷ es) m = unblock_all es (unblock e.context m)

module _ (q : FutexEntry → Bool) where
  count-but_last :
      (x : FutexEntry) (xs : List FutexEntry)
      → count q (x ∷ xs) ≡ bit (q (last_or x xs)) + count q (but_last x xs)
  count-but_last x [] = refl
  count-but_last x (y ∷ ys) = omega (arith, count-but_last y ys)

  count-swap_remove :
      (i : ℕ) (es : List FutexEntry) (e : FutexEntry)
      → get_elem? es i ≡ some e
      → count q es ≡ bit (q e) + count q (swap_remove i es)
  unfolding swap_remove
  count-swap_remove i [] e h = cc
  count-swap_remove zero (x ∷ []) e h = ground (arith, h)
  count-swap_remove zero (x ∷ y ∷ ys) e h = ground (arith, h, count-but_last y ys)
  count-swap_remove (suc i) (x ∷ xs) e h = omega (arith, count-swap_remove i xs e h)

  drop-swap_remove :
      (i : ℕ) (es : List FutexEntry) (e : FutexEntry)
      → get_elem? es i ≡ some e
      → count q (drop i es) ≡ bit (q e) + count q (drop i (swap_remove i es))
  unfolding swap_remove
  drop-swap_remove i [] e h = cc
  drop-swap_remove zero (x ∷ xs) e h = count-swap_remove zero (x ∷ xs) e h
  drop-swap_remove (suc i) (x ∷ xs) e h = drop-swap_remove i xs e h

  drop-next :
      (i : ℕ) (es : List FutexEntry) (e : FutexEntry)
      → get_elem? es i ≡ some e
      → count q (drop i es) ≡ bit (q e) + count q (drop (suc i) es)
  drop-next i [] e h = cc
  drop-next zero (x ∷ xs) e h = ground (arith, h)
  drop-next (suc i) (x ∷ xs) e h = drop-next i xs e h

  drop-end : (i : ℕ) (es : List FutexEntry) → get_elem? es i ≡ none → count q (drop i es) ≡ 0
  drop-end zero [] h = refl
  drop-end (suc i) [] h = refl
  drop-end zero (x ∷ xs) h = cc
  drop-end (suc i) (x ∷ xs) h = drop-end i xs h

length-but_last : (x : FutexEntry) (xs : List FutexEntry) → length (but_last x xs) ≡ length xs
length-but_last x [] = refl
length-but_last x (y ∷ ys) = omega (arith, length-but_last y ys)

length-swap_remove :
    (i : ℕ) (es : List FutexEntry) (e : FutexEntry)
    → get_elem? es i ≡ some e
    → (length es ≡ suc (length (swap_remove i es))) × (i < length es)
unfolding swap_remove
length-swap_remove i [] e h = cc
length-swap_remove zero (x ∷ []) e h = (refl, omega arith)
length-swap_remove zero (x ∷ y ∷ ys) e h = (omega (arith, length-but_last y ys), omega arith)
length-swap_remove (suc i) (x ∷ xs) e h =
    let rest = length-swap_remove i xs e h in (omega (arith, rest.0), omega (arith, rest.1))

remove-missing : (k : ℕ) (m : FutexList) → OrdMap.get k m ≡ none → OrdMap.remove k m ≡ m
unfolding OrdMap.get OrdMap.remove
remove-missing k [] h = refl
remove-missing k ((j, v) ∷ m) h = ground (arith, remove-missing k m)

module _ (addr addr_space val : ℕ) where
  -- What the loop does from entry `i` on: some entries `rs` that match are taken out and woken.
  abbrev pub Woken :
      ℕ
      → ℕ
      → List FutexEntry
      → OrdMap Context
      → Option (ℕ × List FutexEntry × OrdMap Context)
      → Type 0
  Woken i woken es m result =
      (rs : List FutexEntry) × (left : List FutexEntry) × (result
        ≡ some (woken + length rs, left, unblock_all rs m))
      × (length rs ≡ min (val - woken) (count (matches addr addr_space) (drop i es)))
      × (count (matches addr addr_space) rs ≡ length rs)
      × ((q : FutexEntry → Bool) → count q es ≡ count q rs + count q left)

  module _ (n i woken : ℕ) (es : List FutexEntry) (m : OrdMap Context) (e : FutexEntry)
      (at : get_elem? es i ≡ some e) (room : ltb woken val ≡ true) where
    wake_loop-hit :
        matches addr addr_space e ≡ true
        → wake_loop addr addr_space val (suc n) i woken es m
          ≡ wake_loop addr addr_space val n i (suc woken) (swap_remove i es) (unblock e.context m)
    unfolding wake_loop
    wake_loop-hit hit = rw (wake_loop, at) (rw room (rw hit refl))

    wake_loop-miss :
        matches addr addr_space e ≡ false
        → wake_loop addr addr_space val (suc n) i woken es m
          ≡ wake_loop addr addr_space val n (suc i) woken es m
    unfolding wake_loop
    wake_loop-miss miss = rw (wake_loop, at) (rw room (rw miss refl))

  wake_loop_lem :
      (n i woken : ℕ) (es : List FutexEntry) (m : OrdMap Context)
      → length es < n + i
      → i ≤ length es
      → Woken i woken es m (wake_loop addr addr_space val n i woken es m)
  unfolding wake_loop
  wake_loop_lem zero i woken es m fuel inside = absurd (omega arith)
  wake_loop_lem (suc n) i woken es m fuel inside = elim (Option-cases (get_elem? es i)) [
    | inl e ↦
        let end = drop-end (matches addr addr_space) i es e in
        (
          [],
          es,
          rw (wake_loop, e) (ap (λ w. some (w, es, m)) (omega arith)),
          omega (arith, end),
          refl,
          λ q. omega arith,
        )
    | inr (e, at) ↦
        let size = length-swap_remove i es e at in
        elim (Bool-cases (ltb woken val)) [
          | inr full ↦ (
            [],
            es,
            rw (wake_loop, at) (rw full (ap (λ w. some (w, es, m)) (omega arith))),
            ground (arith, full),
            refl,
            λ q. omega arith,
          )
          | inl room ↦ elim (Bool-cases (matches addr addr_space e)) [
            | inl hit ↦
                let rest =
                  wake_loop_lem n i (suc woken) (swap_remove i es) (unblock e.context m)
                    (omega (arith, size.0)) (omega (arith, size.0, size.1)) in
                let here = drop-swap_remove (matches addr addr_space) i es e at in
                (
                  e ∷ rest.0,
                  rest.1,
                  wake_loop-hit n i woken es m e at room hit
                      ∙ rest.2
                      ∙ ap (λ w. some (w, rest.1, unblock_all rest.0 (unblock e.context m)))
                          (omega arith),
                  ground (arith, room, hit, here, rest.3),
                  ground (arith, hit, rest.4),
                  λ q. omega (arith, count-swap_remove q i es e at, rest.5 q),
                )
            | inr miss ↦
                let rest =
                  wake_loop_lem n (suc i) woken es m (omega arith) (omega (arith, size.1)) in
                let here = drop-next (matches addr addr_space) i es e at in
                (
                  rest.0,
                  rest.1,
                  wake_loop-miss n i woken es m e at room miss ∙ rest.2,
                  ground (arith, miss, here, rest.3),
                  rest.4,
                  rest.5,
                )
          ]
        ]
  ]

  -- `FUTEX_WAKE` ends. Of the entries at the physical address it takes out as many that wait at the
  -- virtual address in the same address space as there are, and at most `val`; it returns their
  -- number, unblocks their contexts, and leaves all other entries in the table: every property of
  -- entries that is counted among those that were there is counted among the taken and the left.
  -- Where none is left, the address is forgotten.
  pub futex_wake_lem :
      (phys : ℕ) (s : Futexes)
      → (rs : List FutexEntry) × (left : List FutexEntry) × (s' : Futexes) × (futex_wake addr
            addr_space val phys s
          ≡ some (length rs, s'))
        × (length rs
            ≡ min val (count (matches addr addr_space) (entries (OrdMap.get phys s.table))))
        × (count (matches addr addr_space) rs ≡ length rs)
        × ((q : FutexEntry → Bool)
            → count q (entries (OrdMap.get phys s.table)) ≡ count q rs + count q left)
        × (s'.contexts ≡ unblock_all rs s.contexts)
        × (s'.table ≡ keep phys left s.table)
  unfolding futex_wake
  futex_wake_lem phys s = elim (Option-cases (OrdMap.get phys s.table)) [
    | inl e ↦ (
      [],
      [],
      s,
      rw (futex_wake, e) refl,
      rw e (omega arith),
      refl,
      λ q. rw e refl,
      refl,
      sym (remove-missing phys s.table e),
    )
    | inr (es, e) ↦
        let run = wake_loop_lem (suc (length es)) 0 0 es s.contexts (omega arith) (omega arith) in
        (
          run.0,
          run.1,
          record { table = keep phys run.1 s.table; contexts = unblock_all run.0 s.contexts },
          rw (futex_wake, e)
              (rw run.2 (
                ap
                  (λ w. some (
                    w,
                    record {
                      table = keep phys run.1 s.table;
                      contexts = unblock_all run.0 s.contexts;
                    },
                  ))
                  (omega arith))),
          rw e (omega (arith, run.3)),
          run.4,
          λ q. rw e (run.5 q),
          refl,
          refl,
        )
  ]
