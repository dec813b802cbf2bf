-- ===== src/Context/Switch/Wakeups.antt =====
-- Contexts of src/context/context.rs that wait to be unblocked.
use redox_kernel.Common.{
  ℕ, ◌≡◌, refl, some, true, ◌||◌, ◌==◌, if◌then◌else◌, arith, Bool-cases, Option-cases, inl, inr,
  subst,
}
use redox_kernel.Common.OrdMap
use redox_kernel.Common.OrdMap.{OrdMap}
use redox_kernel.Common.OrdMap.Lookup.{get-insert}
use redox_kernel.Context.Switch.{
  Context, is_runnable, is_soft_blocked, unblock_no_ipi, unblock, modify,
}

-- The context is there and may run.
abbrev pub Runs : ℕ → OrdMap Context → Type 0
Runs j m = (c : Context) × (OrdMap.get j m ≡ some c) × (is_runnable c.status ≡ true)

-- The context is there, and may run or waits to be unblocked.
abbrev pub Ready : ℕ → OrdMap Context → Type 0
Ready j m =
    (c : Context) × (OrdMap.get j m ≡ some c)
    × ((is_runnable c.status || is_soft_blocked c.status) ≡ true)

pub get-modify :
    (i j : ℕ) (f : Context → Context) (m : OrdMap Context) (c : Context)
    → OrdMap.get j m ≡ some c
    → OrdMap.get j (modify i f m) ≡ (if j == i then some (f c) else some c)
get-modify i j f m c h = elim (Bool-cases (j == i)) [
  | inl same ↦
      let eq : j ≡ i = ground arith in
      let self : OrdMap.get j (modify j f m) ≡ some (f c) =
        ground (arith, h, get-insert j j (f c) m) in
      rw same (subst (λ k. OrdMap.get j (modify k f m) ≡ some (f c)) eq self)
  | inr other ↦ elim (Option-cases (OrdMap.get i m)) [
    | inl e ↦ ground (arith, e, h, other)
    | inr (d, e) ↦ ground (arith, e, h, other, get-insert i j (f d) m)
  ]
]

pub unblock_status :
    (c : Context)
    → (is_runnable c.status || is_soft_blocked c.status) ≡ true
    → is_runnable (unblock_no_ipi c).1.status ≡ true
unfolding unblock_no_ipi
unblock_status c h = ground arith

pub Runs-unblock : (i j : ℕ) (m : OrdMap Context) → Runs j m → Runs j (unblock i m)
Runs-unblock i j m (c, e, r) = elim (Bool-cases (j == i)) [
  | inl same ↦ (
    (unblock_no_ipi c).1,
    rw (get-modify i j (λ x. (unblock_no_ipi x).1) m c e) (rw same refl),
    unblock_status c (ground arith),
  )
  | inr other ↦ (c, rw (get-modify i j (λ x. (unblock_no_ipi x).1) m c e) (rw other refl), r)
]

pub Ready-unblock : (i j : ℕ) (m : OrdMap Context) → Ready j m → Ready j (unblock i m)
Ready-unblock i j m (c, e, r) = elim (Bool-cases (j == i)) [
  | inl same ↦ (
    (unblock_no_ipi c).1,
    rw (get-modify i j (λ x. (unblock_no_ipi x).1) m c e) (rw same refl),
    ground (arith, unblock_status c r),
  )
  | inr other ↦ (c, rw (get-modify i j (λ x. (unblock_no_ipi x).1) m c e) (rw other refl), r)
]

pub Runs-unblock_self : (j : ℕ) (m : OrdMap Context) → Ready j m → Runs j (unblock j m)
Runs-unblock_self j m (c, e, r) =
    let same : (j == j) ≡ true = ground arith in
    (
      (unblock_no_ipi c).1,
      rw (get-modify j j (λ x. (unblock_no_ipi x).1) m c e) (rw same refl),
      unblock_status c r,
    )
