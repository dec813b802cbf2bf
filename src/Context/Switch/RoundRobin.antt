-- ===== src/Context/Switch/RoundRobin.antt =====
-- The loop of `switch` in src/context/switch.rs takes the first context that may run here.
use redox_kernel.Common.{
  ℕ, ◌≡◌, inl, inr, refl, arith, Option, none, some, List, [], ◌∷◌, Bool, false, ◌&&◌, ◌||◌, not,
  ◌==◌, if◌then◌else◌, Bool-cases, Option-cases,
}
use redox_kernel.Common.OrdMap
use redox_kernel.Common.OrdMap.{OrdMap}
use redox_kernel.Common.OrdMap.Lookup.{get-insert}
use redox_kernel.Context.Switch.{
  Context, runnable, is_runnable, is_soft_blocked, wakes, unblock_no_ipi, update_runnable, choose,
}

-- A context may run on a processor: no processor runs it, it is allowed there, and it is runnable or
-- blocked until a time that has come.
abbrev pub eligible : ℕ → ℕ → Context → Bool
eligible cpu_id now c =
    not c.running
    && (c.sched_affinity cpu_id
        && (is_runnable c.status || is_soft_blocked c.status && wakes now c.wake))

eligible-update :
    (cpu_id now : ℕ) (c : Context) → (update_runnable cpu_id now c).0 ≡ eligible cpu_id now c
unfolding update_runnable unblock_no_ipi
eligible-update cpu_id now c = ground arith

update_runnable_idle :
    (cpu_id now : ℕ) (c : Context)
    → eligible cpu_id now c ≡ false
    → (update_runnable cpu_id now c).1 ≡ c
unfolding update_runnable unblock_no_ipi
update_runnable_idle cpu_id now c e = ground arith

-- `update_runnable` says whether the context may run, and then leaves it runnable; otherwise it
-- changes nothing.
pub update_runnable_lem :
    (cpu_id now : ℕ) (c : Context)
    → ((update_runnable cpu_id now c).0 ≡ eligible cpu_id now c)
      × ((update_runnable cpu_id now c).1 ≡ (
          if eligible cpu_id now c
          then (if is_runnable c.status then c else record c { status = runnable; wake = none })
          else c))
unfolding update_runnable unblock_no_ipi
update_runnable_lem cpu_id now c = (eligible-update cpu_id now c, ground arith)

abbrev pub eligible_at : ℕ → ℕ → OrdMap Context → ℕ → Bool
eligible_at cpu_id now m i = elim (OrdMap.get i m) [ none ↦ false | some c ↦ eligible cpu_id now c ]

-- The first number in a list that passes a test; the first time that it comes up, `idle` is passed over.
abbrev pub first_eligible : (ℕ → Bool) → ℕ → Bool → List ℕ → Option ℕ
first_eligible may idle skip_idle [] = none
first_eligible may idle skip_idle (i ∷ is) =
    let past_idle = first_eligible may idle false is in
    let past = first_eligible may idle skip_idle is in
    if i == idle && skip_idle then past_idle else if may i then some i else past

first_eligible_same :
    (may may' : ℕ → Bool) (idle : ℕ) (skip_idle : Bool) (is : List ℕ)
    → ((j : ℕ) → may j ≡ may' j)
    → first_eligible may idle skip_idle is ≡ first_eligible may' idle skip_idle is
first_eligible_same may may' idle skip_idle [] h = refl
first_eligible_same may may' idle skip_idle (i ∷ is) h =
    rw
      (
        h i,
        first_eligible_same may may' idle false is h,
        first_eligible_same may may' idle skip_idle is h,
      )
      refl

-- The loop of `switch` takes the first candidate that may run, passing over the idle context once;
-- what it does to those before it does not matter.
pub choose_first :
    (cpu_id now idle : ℕ) (skip_idle : Bool) (is : List ℕ) (m : OrdMap Context)
    → (choose cpu_id now idle skip_idle is m).0
      ≡ first_eligible (eligible_at cpu_id now m) idle skip_idle is
unfolding choose
choose_first cpu_id now idle skip_idle [] m = refl
choose_first cpu_id now idle skip_idle (i ∷ is) m = elim (Option-cases (OrdMap.get i m)) [
  | inl gone ↦ ground (
    arith,
    gone,
    choose_first cpu_id now idle false is m,
    choose_first cpu_id now idle skip_idle is m,
  )
  | inr (c, here) ↦
      let c' = (update_runnable cpu_id now c).1 in
      elim (Bool-cases (eligible cpu_id now c)) [
        | inl may ↦ ground (
          arith,
          here,
          may,
          eligible-update cpu_id now c,
          choose_first cpu_id now idle false is m,
        )
        | inr may_not ↦
            let kept = update_runnable_idle cpu_id now c may_not in
            let m' = OrdMap.insert i c' m in
            let same : (j : ℕ) → eligible_at cpu_id now m' j ≡ eligible_at cpu_id now m j =
              λ j. ground (arith, here, get-insert i j c' m, kept) in
            ground (
              arith,
              here,
              may_not,
              eligible-update cpu_id now c,
              choose_first cpu_id now idle false is m,
              choose_first cpu_id now idle skip_idle is m',
              first_eligible_same (eligible_at cpu_id now m') (eligible_at cpu_id now m) idle
                  skip_idle is same,
            )
      ]
]
