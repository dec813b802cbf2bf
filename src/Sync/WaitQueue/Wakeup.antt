-- ===== src/Sync/WaitQueue/Wakeup.antt =====
-- `receive` and `send` of src/sync/wait_queue.rs: a receiver that waits gets what is sent.
use redox_kernel.Common.{
  ℕ, ◌≡◌, ◌∙◌, ap, refl, some, List, [], ◌∷◌, ◌++◌, Bool, true, false, arith, ok,
}
use redox_kernel.Common.OrdMap
use redox_kernel.Context.Switch.{Context, is_runnable}
use redox_kernel.Context.Switch.Wakeups.{Runs}
use redox_kernel.Sync.WaitCondition.{Waiters, notify, wait, resumed}
use redox_kernel.Sync.WaitCondition.Notify.{OtherSteps, notify-wait}
use redox_kernel.Sync.WaitQueue.{
  WaitQueue, Attempt, finished, switches, send, block_on, receive, receive_again,
}

module _ {A : Type 0} where
  -- The first element of the queue once `value` is sent
  abbrev pub front : A → List A → A
  front value [] = value
  front value (t ∷ ts) = t

  receive-front :
      (j : ℕ) (block pending : Bool) (value : A) (inner : List A) (condition : Waiters)
      → (receive j block pending (record { inner = inner ++ value ∷ []; condition = condition })).0
        ≡ finished (ok (front value inner))
  unfolding receive
  receive-front j block pending value [] condition = refl
  receive-front j block pending value (t ∷ ts) condition = refl

  -- A receive that switches has made its context wait.
  receive-wait :
      (j : ℕ) (pending : Bool) (inner : List A) (condition : Waiters) (q1 : WaitQueue A)
      → receive j true pending (record { inner = inner; condition = condition }) ≡ (switches, q1)
      → wait j false condition ≡ (true, q1.condition)
  unfolding receive block_on wait
  receive-wait j pending (t ∷ ts) condition q1 e = ground (arith, ap (λ x. x.0) e)
  receive-wait j true [] condition q1 e = ground (arith, ap (λ x. x.0) e)
  receive-wait j false [] condition q1 e =
      let after : wait j false condition ≡ (true, (wait j false condition).1) = refl in
      after ∙ ap (λ (x : Attempt A × WaitQueue A). (true, x.1.condition)) e

  -- Where a context that may run finds the queue empty and waits without an error, then whatever
  -- other contexts do at the condition in the meantime, and whatever the queue holds by then, the
  -- next `send` lets the context run, and its `receive` returns the first element.
  pub send-receive :
      (j : ℕ) (pending : Bool) (q q1 q2 : WaitQueue A) (c : Context) (value : A)
      → OrdMap.get j q.condition.contexts ≡ some c
      → is_runnable c.status ≡ true
      → receive j true pending q ≡ (switches, q1)
      → OtherSteps j q1.condition q2.condition
      → Runs j (send value q2).1.condition.contexts
        × ((receive_again j true pending (send value q2).1).0
            ≡ finished (ok (front value q2.inner)))
  unfolding send receive_again resumed notify
  send-receive j pending q q1 q2 c value h r e steps =
      let woken =
        notify-wait j q.condition q1.condition q2.condition c h r
          (receive-wait j pending q.inner q.condition q1 e) steps in
      (woken.0, receive-front j true pending value q2.inner (notify q2.condition).1)
