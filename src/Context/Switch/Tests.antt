-- ===== src/Context/Switch/Tests.antt =====
-- The scheduler of src/context/switch.rs with three contexts on one processor; context 9 is idle.
use redox_kernel.Common.{none, some, [], ◌∷◌, true, false}
use redox_kernel.Context.Switch.{Context, Scheduler, runnable, blocked, switch}
use redox_kernel.Context.Switch.Choice.{Switched, switch_lem}

abbrev ready : Context
ready = record {
  status = runnable;
  running = false;
  cpu_id = none;
  sched_affinity = λ cpu. true;
  wake = none;
  is_preemptable = true;
  cpu_time = 0;
  switch_time = 0;
}

abbrev sleeping : Context
sleeping = record ready { status = blocked; wake = some 50 }

abbrev scheduler : Scheduler
scheduler = record {
  contexts = (1, sleeping) ∷ (2, record ready { running = true }) ∷ (9, ready) ∷ [];
  current = 2;
  idle = 9;
}

switch_lem_example : Switched scheduler 1 (switch 0 60 61 scheduler)
switch_lem_example = switch_lem 0 60 61 scheduler 1
