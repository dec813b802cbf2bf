-- ===== src/Sync/WaitCondition.antt =====
-- src/sync/wait_condition.rs: contexts that wait until they are notified. A context is a number, and
-- one that was dropped is not in the map, so that its weak reference has nothing to unblock.
pub mod Notify
use redox_kernel.Common.{
  ℕ, Option, none, some, List, [], ◌∷◌, ◌++◌, Bool, true, false, ◌==◌, if◌then◌else◌, length,
}
use redox_kernel.Common.OrdMap.{OrdMap}
use redox_kernel.Context.Switch.{Context, block, unblock, modify}

-- The `contexts` of a condition, and the contexts of the kernel
pub record Waiters : Type 0 where
  pub waiting : List ℕ
  pub contexts : OrdMap Context

-- The loop over `contexts.pop()`
unfoldable pub unblock_popped : List ℕ → OrdMap Context → OrdMap Context
unblock_popped [] m = m
unblock_popped (i ∷ is) m = unblock i (unblock_popped is m)

unfoldable pub notify : Waiters → ℕ × Waiters
unfolding unblock_popped
notify s =
    (length s.waiting, record { waiting = []; contexts = unblock_popped s.waiting s.contexts })

-- The loop over `contexts.iter()`
unfoldable pub unblock_each : List ℕ → OrdMap Context → OrdMap Context
unblock_each [] m = m
unblock_each (i ∷ is) m = unblock_each is (unblock i m)

unfoldable pub notify_signal : Waiters → ℕ × Waiters
unfolding unblock_each
notify_signal s = (length s.waiting, record s { contexts = unblock_each s.waiting s.contexts })

-- `wait` up to the switch to another context: whether it switches, or returns false. `pending` is
-- whether the context has a signal that is not blocked.
unfoldable pub wait : ℕ → Bool → Waiters → Bool × Waiters
wait current pending s = if pending then (false, s) else (
  true,
  record {
    waiting = s.waiting ++ current ∷ [];
    contexts = modify current (λ c. (block c).1) s.contexts;
  },
)

-- The loop that looks for the context, and removes it.
unfoldable pub remove_context : ℕ → List ℕ → Option (List ℕ)
remove_context current [] = none
remove_context current (i ∷ is) =
    let rest = remove_context current is in
    if i == current then some is else elim rest [ none ↦ none | some js ↦ some (i ∷ js) ]

-- `wait` once the context runs again, with what it returns
unfoldable pub resumed : ℕ → Waiters → Bool × Waiters
unfolding remove_context
resumed current s = elim (remove_context current s.waiting) [
  | none ↦ (true, s)
  | some left ↦ (false, record s { waiting = left })
]
