-- ===== src/Syscall/Futex/Waiting.antt =====
-- `FUTEX_WAIT` of src/syscall/futex.rs against `FUTEX_WAKE`: no wake-up is lost.
use redox_kernel.Common.{
  ℕ, ◌+◌, ◌≤◌, ◌<◌, ◌≡◌, ap, sym, ◌∙◌, refl, Option, some, List, [], ◌∷◌, ◌++◌, Bool, true, ◌&&◌,
  ◌==◌, length, arith, Bool-cases, inl, inr, ok, err, subst,
}
use redox_kernel.Common.Errno.{eintr}
use redox_kernel.Common.OrdMap
use redox_kernel.Common.OrdMap.{OrdMap}
use redox_kernel.Common.OrdMap.Lookup.{get-insert}
use redox_kernel.Context.Switch.{Context, is_runnable, block, unblock, modify}
use redox_kernel.Context.Switch.Wakeups.{
  Runs, Ready, get-modify, Runs-unblock, Ready-unblock, Runs-unblock_self,
}
use redox_kernel.Syscall.Futex.{
  FutexEntry, Futexes, Width, aligned, fetched, expected, wake_time, push_entry, entries, matches,
  futex_wait, futex_wake,
}
use redox_kernel.Syscall.Futex.Wake.{count, unblock_all, futex_wake_lem}

Runs-unblock_all :
    (j : ℕ) (es : List FutexEntry) (m : OrdMap Context) → Runs j m → Runs j (unblock_all es m)
Runs-unblock_all j [] m r = r
Runs-unblock_all j (e ∷ es) m r =
    Runs-unblock_all j es (unblock e.context m) (Runs-unblock e.context j m r)

-- Who is among the woken may run.
woken-Runs :
    (j : ℕ) (es : List FutexEntry) (m : OrdMap Context)
    → Ready j m
    → 0 < count (λ e. e.context == j) es
    → Runs j (unblock_all es m)
woken-Runs j [] m r h = absurd (omega arith)
woken-Runs j (e ∷ es) m r h = elim (Bool-cases (e.context == j)) [
  | inl same ↦
      let here : e.context ≡ j = ground arith in
      Runs-unblock_all j es (unblock e.context m)
        (subst (λ i. Runs j (unblock i m)) (sym here) (Runs-unblock_self j m r))
  | inr other ↦ woken-Runs j es (unblock e.context m) (Ready-unblock e.context j m r) (ground arith)
]

count-++ :
    (q : FutexEntry → Bool) (es fs : List FutexEntry) → count q (es ++ fs) ≡ count q es + count q fs
count-++ q [] fs = omega arith
count-++ q (e ∷ es) fs = omega (arith, count-++ q es fs)

-- Where all that wait at the address are among the woken, none of them is left.
none-left :
    (p q : FutexEntry → Bool)
    → ((e : FutexEntry) → q e ≡ true → p e ≡ true)
    → (es : List FutexEntry) → count q es ≤ count p es
none-left p q h [] = omega arith
none-left p q h (e ∷ es) = elim (Bool-cases (q e)) [
  | inl hit ↦ ground (arith, none-left p q h es, h e hit)
  | inr miss ↦ ground (arith, none-left p q h es, miss)
]

module _ (load32 load64 : ℕ → ℕ) (width : Width) (s : Futexes)
    (current addr_space addr phys val : ℕ) (pending : Bool) (timeout : Option (ℕ × ℕ)) where
  abbrev entry : FutexEntry
  entry = record { target_virtaddr = addr; context = current; addr_space = addr_space }

  abbrev timed : OrdMap Context
  timed = modify current (λ c. record c { wake = wake_time timeout }) s.contexts

  -- The state of a context that waits.
  abbrev waiting : Futexes
  waiting = record {
    table = push_entry phys entry s.table;
    contexts = modify current (λ c. (block c).1) timed;
  }

  -- What a wait that does not fail has done.
  futex_wait_ok :
      (s' : Futexes)
      → futex_wait load32 load64 width s current addr_space pending addr phys val timeout
        ≡ (s', ok tt)
      → s' ≡ waiting
  unfolding futex_wait
  futex_wait_ok s' h = elim (Bool-cases (aligned width addr)) [
    | inr odd ↦ ground (arith, h, odd)
    | inl even ↦ elim (Bool-cases (fetched load32 load64 width addr phys == expected width val)) [
      | inr changed ↦ ground (arith, h, even, changed)
      | inl same ↦ elim (Bool-cases pending) [
        | inl signal ↦
            let run : futex_wait load32 load64 width s current addr_space pending addr phys val
                  timeout
                ≡ (record s { contexts = timed }, err eintr) =
              rw (futex_wait, even) (rw same (rw signal refl)) in
            let clash : ok tt ≡ err eintr = ap (λ x. x.1) (sym h ∙ run) in cc
        | inr calm ↦
            let run : futex_wait load32 load64 width s current addr_space pending addr phys val
                  timeout
                ≡ (waiting, ok tt) =
              rw (futex_wait, even) (rw same (rw calm refl)) in
            ap (λ x. x.0) (sym h ∙ run)
      ]
    ]
  ]

  waiting-Ready :
      (c : Context)
      → OrdMap.get current s.contexts ≡ some c
      → is_runnable c.status ≡ true
      → Ready current waiting.contexts
  unfolding block
  waiting-Ready c h r =
      let self : (current == current) ≡ true = ground arith in
      let c' = record c { wake = wake_time timeout } in
      let first : OrdMap.get current timed ≡ some c' =
        rw (get-modify current current (λ x. record x { wake = wake_time timeout }) s.contexts c h)
          (rw self refl) in
      (
        (block c').1,
        rw (get-modify current current (λ x. (block x).1) timed c' first) (rw self refl),
        ground (arith, r),
      )

  pushed :
      entries (OrdMap.get phys (push_entry phys entry s.table))
      ≡ entries (OrdMap.get phys s.table) ++ entry ∷ []
  pushed =
      let self : (phys == phys) ≡ true = ground arith in
      rw (get-insert phys phys (entries (OrdMap.get phys s.table) ++ entry ∷ []) s.table)
        (rw self refl)

  -- Where a context that may run waits at a word without an error, a wake on the very state that the
  -- wait left, at the same virtual address, translated to the same physical address, from the same
  -- address space, and for at least as many as wait there, ends, and the context may run again.
  pub futex_wake-futex_wait :
      (c : Context) (s1 : Futexes) (wanted : ℕ)
      → OrdMap.get current s.contexts ≡ some c
      → is_runnable c.status ≡ true
      → futex_wait load32 load64 width s current addr_space pending addr phys val timeout
        ≡ (s1, ok tt)
      → count (matches addr addr_space) (entries (OrdMap.get phys s1.table)) ≤ wanted
      → (woken : ℕ) × (s2 : Futexes) × (futex_wake addr addr_space wanted phys s1
          ≡ some (woken, s2))
        × Runs current s2.contexts
  futex_wake-futex_wait c s1 wanted h r e enough =
      let done = futex_wait_ok s1 e in
      let ready : Ready current s1.contexts =
        subst (λ x. Ready current x.contexts) (sym done) (waiting-Ready c h r) in
      let run = futex_wake_lem addr addr_space wanted phys s1 in
      let rs = run.0 in
      let mine : FutexEntry → Bool = λ x. matches addr addr_space x && (x.context == current) in
      let all = run.6 mine in
      let hit : 0 < count (λ x. x.context == current) rs =
        (let there : entries (OrdMap.get phys s1.table)
              ≡ entries (OrdMap.get phys s.table) ++ entry ∷ [] =
            subst
              (λ x.
                entries (OrdMap.get phys x.table) ≡ entries (OrdMap.get phys s.table) ++ entry ∷ [])
              (sym done) pushed in
          let total = count-++ mine (entries (OrdMap.get phys s.table)) (entry ∷ []) in
          let me : mine entry ≡ true = ground arith in
          let present : 0 < count mine (entries (OrdMap.get phys s1.table)) =
            rw there (ground (arith, total, me)) in
          let cleared = run.6 (matches addr addr_space) in
          let gone = none-left (matches addr addr_space) mine (λ x q. ground (arith, q)) run.1 in
          let found = none-left (λ x. x.context == current) mine (λ x q. ground (arith, q)) rs in
          omega (arith, all, present, cleared, gone, found, run.4, run.5)) in
      (
        length rs,
        run.2,
        run.3,
        subst (Runs current) (sym run.7) (woken-Runs current rs s1.contexts ready hit),
      )
