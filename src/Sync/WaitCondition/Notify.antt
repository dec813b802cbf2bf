-- ===== src/Sync/WaitCondition/Notify.antt =====
-- `wait` of src/sync/wait_condition.rs against `notify` and `notify_signal`: no wake-up is lost,
-- whatever other contexts do in between.
use redox_kernel.Common.{
  ℕ, ◌≡◌, ◌≢◌, ◌∙◌, ap, sym, refl, subst, some, List, [], ◌∷◌, ◌++◌, Bool, true, false, ◌||◌, ◌==◌,
  arith, Bool-cases, Option-cases, inl, inr,
}
use redox_kernel.Common.OrdMap
use redox_kernel.Common.OrdMap.{OrdMap}
use redox_kernel.Context.Switch.{Context, is_runnable, is_soft_blocked, block, unblock, modify}
use redox_kernel.Context.Switch.Wakeups.{
  Runs, Ready, get-modify, Runs-unblock, Ready-unblock, Runs-unblock_self,
}
use redox_kernel.Sync.WaitCondition.{
  Waiters, unblock_popped, notify, unblock_each, notify_signal, wait, remove_context, resumed,
}

abbrev pub has : ℕ → List ℕ → Bool
has j [] = false
has j (i ∷ is) = (i == j) || has j is

-- The context waits in the list, and may be unblocked.
pub record IsWaiting (current : ℕ) (s : Waiters) : Type 0 where
  pub listed : has current s.waiting ≡ true
  pub ready : Ready current s.contexts

-- What other contexts may do at the condition: begin to wait, stop to wait, and notify as a
-- signal does.
pub data OtherStep (current : ℕ) : Waiters → Waiters → Type 0 where
  waits :
      (k : ℕ)
      → (pending : Bool) → k ≢ current
      → (s : Waiters) → OtherStep current s (wait k pending s).1
  resumes : (k : ℕ) → k ≢ current → (s : Waiters) → OtherStep current s (resumed k s).1
  signals : (s : Waiters) → OtherStep current s (notify_signal s).1

pub data OtherSteps (current : ℕ) : Waiters → Waiters → Type 0 where
  done : (s : Waiters) → OtherSteps current s s
  step : (s t u : Waiters) → OtherStep current s t → OtherSteps current t u → OtherSteps current s u

has-append : (j : ℕ) (is js : List ℕ) → has j (is ++ js) ≡ (has j is || has j js)
has-append j [] js = refl
has-append j (i ∷ is) js = ground (arith, has-append j is js)

has-remove_context :
    (j k : ℕ) (is left : List ℕ)
    → k ≢ j
    → has j is ≡ true
    → remove_context k is ≡ some left
    → has j left ≡ true
unfolding remove_context
has-remove_context j k [] left n h e = ground (arith, e)
has-remove_context j k (i ∷ is) left n h e = elim (Bool-cases (i == k)) [
  | inl same ↦ ground (arith, h, e, same)
  | inr other ↦ elim (Option-cases (remove_context k is)) [
    | inl gone ↦ ground (arith, e, other, gone)
    | inr (js, rest) ↦
        let kept : i ∷ js ≡ left = ground (arith, e, other, rest) in
        subst (λ l. has j l ≡ true) kept
          (elim (Bool-cases (i == j)) [
            | inl at ↦ rw at refl
            | inr off ↦ rw off (has-remove_context j k is js n (ground (arith, h, off)) rest)
          ])
  ]
]

Ready-unblock_popped :
    (j : ℕ) (is : List ℕ) (m : OrdMap Context) → Ready j m → Ready j (unblock_popped is m)
unfolding unblock_popped
Ready-unblock_popped j [] m r = r
Ready-unblock_popped j (i ∷ is) m r =
    Ready-unblock i j (unblock_popped is m) (Ready-unblock_popped j is m r)

Runs-unblock_popped :
    (j : ℕ) (is : List ℕ) (m : OrdMap Context)
    → has j is ≡ true
    → Ready j m
    → Runs j (unblock_popped is m)
unfolding unblock_popped
Runs-unblock_popped j [] m h r = ground (arith, h)
Runs-unblock_popped j (i ∷ is) m h r = elim (Bool-cases (i == j)) [
  | inl same ↦
      let here : i ≡ j = ground arith in
      rw here (Runs-unblock_self j (unblock_popped is m) (Ready-unblock_popped j is m r))
  | inr other ↦
      Runs-unblock i j (unblock_popped is m)
        (Runs-unblock_popped j is m (ground (arith, h, other)) r)
]

Ready-unblock_each :
    (j : ℕ) (is : List ℕ) (m : OrdMap Context) → Ready j m → Ready j (unblock_each is m)
unfolding unblock_each
Ready-unblock_each j [] m r = r
Ready-unblock_each j (i ∷ is) m r = Ready-unblock_each j is (unblock i m) (Ready-unblock i j m r)

Ready-modify :
    (j k : ℕ) (f : Context → Context) (m : OrdMap Context)
    → j ≢ k
    → Ready j m
    → Ready j (modify k f m)
Ready-modify j k f m n (c, h, r) =
    let other : (j == k) ≡ false = ground (arith, n) in
    (c, rw (get-modify k j f m c h) (rw other refl), r)

IsWaiting-step : {j : ℕ} {s t : Waiters} → OtherStep j s t → IsWaiting j s → IsWaiting j t
unfolding wait resumed notify_signal
IsWaiting-step {j} (waits k true n s) w = w
IsWaiting-step {j} (waits k false n s) w = record {
  listed = has-append j s.waiting (k ∷ []) ∙ rw w.listed refl;
  ready = Ready-modify j k (λ c. (block c).1) s.contexts (λ e. n (sym e)) w.ready;
}
IsWaiting-step {j} (resumes k n s) w = elim (Option-cases (remove_context k s.waiting)) [
  | inl e ↦ rw (resumed, e) w
  | inr (left, e) ↦
      rw (resumed, e)
        record { listed = has-remove_context j k s.waiting left n w.listed e; ready = w.ready }
]
IsWaiting-step {j} (signals s) w = record {
  listed = w.listed;
  ready = Ready-unblock_each j s.waiting s.contexts w.ready;
}

pub IsWaiting-steps : {j : ℕ} {s t : Waiters} → OtherSteps j s t → IsWaiting j s → IsWaiting j t
IsWaiting-steps (done s) w = w
IsWaiting-steps (step s t u first rest) w = IsWaiting-steps rest (IsWaiting-step first w)

-- A context that may run waits from the moment it blocks.
pub IsWaiting-wait :
    (j : ℕ) (s s1 : Waiters) (c : Context)
    → OrdMap.get j s.contexts ≡ some c
    → is_runnable c.status ≡ true
    → wait j false s ≡ (true, s1)
    → IsWaiting j s1
unfolding wait block
IsWaiting-wait j s s1 c h r e =
    let self : (j == j) ≡ true = ground arith in
    let blocked_c : is_soft_blocked (block c).1.status ≡ true = ground arith in
    subst (IsWaiting j) (ap (λ x. x.1) e) record {
      listed = has-append j s.waiting (j ∷ []) ∙ ground arith;
      ready = (
        (block c).1,
        rw (get-modify j j (λ x. (block x).1) s.contexts c h) (rw self refl),
        ground (arith, blocked_c),
      );
    }

-- Whoever waits when the condition is notified may run, and is told so.
pub notify-IsWaiting :
    (j : ℕ) (s : Waiters)
    → IsWaiting j s
    → Runs j (notify s).1.contexts × (resumed j (notify s).1 ≡ (true, (notify s).1))
unfolding notify resumed remove_context
notify-IsWaiting j s w = (Runs-unblock_popped j s.waiting s.contexts w.listed w.ready, refl)

-- A context that may run and waits without an error is not lost, whatever other contexts do at the
-- condition in the meantime: the next `notify` lets it run, and its `wait` returns true.
pub notify-wait :
    (j : ℕ) (s s1 s2 : Waiters) (c : Context)
    → OrdMap.get j s.contexts ≡ some c
    → is_runnable c.status ≡ true
    → wait j false s ≡ (true, s1)
    → OtherSteps j s1 s2
    → Runs j (notify s2).1.contexts × (resumed j (notify s2).1 ≡ (true, (notify s2).1))
notify-wait j s s1 s2 c h r e steps =
    notify-IsWaiting j s2 (IsWaiting-steps steps (IsWaiting-wait j s s1 c h r e))
