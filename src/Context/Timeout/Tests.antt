-- ===== src/Context/Timeout/Tests.antt =====
-- The timeouts of src/context/timeout.rs at a concrete time; clock 4 is monotonic, clock 1 is real time.
use redox_kernel.Common.{ℕ, ◌≡◌, some, [], ◌∷◌}
use redox_kernel.Context.Timeout.{Timeout, Registry, trigger}
use redox_kernel.Context.Timeout.Trigger.{Parted, trigger_lem}

abbrev timeout_at : ℕ → ℕ → Timeout
timeout_at clock time = record { scheme_id = 1; event_id = time; clock = clock; time = time }

abbrev registry : Registry
registry = timeout_at 4 100 ∷ timeout_at 1 900 ∷ timeout_at 4 200 ∷ []

trigger_lem_example :
    (fired : Registry) × (left : Registry) × (trigger 4 1 150 1000 registry ≡ some (fired, left))
    × Parted 4 1 150 1000 registry fired left
trigger_lem_example = trigger_lem 4 1 150 1000 registry
