-- ===== src/Context/Switch/Choice.antt =====
-- `switch` of src/context/switch.rs keeps two processors from running one context.
use redox_kernel.Common.{
  ℕ, ◌≡◌, ◌⊎◌, inl, inr, refl, sym, ◌∙◌, arith, none, some, List, [], ◌∷◌, Bool, true, false, ◌&&◌,
  ◌==◌, if◌then◌else◌, is_some, subst, Bool-cases, Option-cases,
}
use redox_kernel.Common.OrdMap
use redox_kernel.Common.OrdMap.{OrdMap}
use redox_kernel.Common.OrdMap.Lookup.{get-insert}
use redox_kernel.Context.Switch.{
  Context, Scheduler, update_runnable, choose, candidates, modify, leave, enter, switch,
}

-- Whether a context runs.
abbrev pub is_running : ℕ → OrdMap Context → Bool
is_running j m = elim (OrdMap.get j m) [ none ↦ false | some c ↦ c.running ]

update_runnable-running :
    (cpu_id now : ℕ) (c : Context)
    → ((update_runnable cpu_id now c).1.running ≡ c.running)
      × ((update_runnable cpu_id now c).0 ≡ true
          → (c.running ≡ false) × (c.sched_affinity cpu_id ≡ true))
unfolding update_runnable
update_runnable-running cpu_id now c = ground arith

choose_lem :
    (cpu_id now idle : ℕ) (skip_idle : Bool) (is : List ℕ) (m : OrdMap Context) (j : ℕ)
    → is_running j (choose cpu_id now idle skip_idle is m).1 ≡ is_running j m
unfolding choose
choose_lem cpu_id now idle skip_idle [] m j = refl
choose_lem cpu_id now idle skip_idle (i ∷ is) m j = elim (Option-cases (OrdMap.get i m)) [
  | inl gone ↦ ground (
    arith,
    gone,
    choose_lem cpu_id now idle false is m j,
    choose_lem cpu_id now idle skip_idle is m j,
  )
  | inr (c, here) ↦
      let c' = (update_runnable cpu_id now c).1 in
      ground (
        arith,
        here,
        choose_lem cpu_id now idle false is m j,
        choose_lem cpu_id now idle skip_idle is (OrdMap.insert i c' m) j,
        get-insert i j c' m,
        (update_runnable-running cpu_id now c).0,
      )
]

choose-free :
    (cpu_id now idle : ℕ) (skip_idle : Bool) (is : List ℕ) (m : OrdMap Context) (next : ℕ)
    → (choose cpu_id now idle skip_idle is m).0 ≡ some next
    → is_running next m ≡ false
unfolding choose
choose-free cpu_id now idle skip_idle [] m next e = cc
choose-free cpu_id now idle skip_idle (i ∷ is) m next e = elim (Option-cases (OrdMap.get i m)) [
  | inl gone ↦ ground (
    arith,
    gone,
    choose-free cpu_id now idle false is m next,
    choose-free cpu_id now idle skip_idle is m next,
  )
  | inr (c, here) ↦
      let c' = (update_runnable cpu_id now c).1 in
      ground (
        arith,
        here,
        choose-free cpu_id now idle false is m next,
        choose-free cpu_id now idle skip_idle is (OrdMap.insert i c' m) next,
        get-insert i next c' m,
        update_runnable-running cpu_id now c,
      )
]

choose-present :
    (cpu_id now idle : ℕ) (skip_idle : Bool) (is : List ℕ) (m : OrdMap Context) (next : ℕ)
    → (choose cpu_id now idle skip_idle is m).0 ≡ some next
    → is_some (OrdMap.get next (choose cpu_id now idle skip_idle is m).1) ≡ true
unfolding choose
choose-present cpu_id now idle skip_idle [] m next e = cc
choose-present cpu_id now idle skip_idle (i ∷ is) m next e = elim (Option-cases (OrdMap.get i m)) [
  | inl gone ↦ ground (
    arith,
    gone,
    choose-present cpu_id now idle false is m next,
    choose-present cpu_id now idle skip_idle is m next,
  )
  | inr (c, here) ↦
      let c' = (update_runnable cpu_id now c).1 in
      ground (
        arith,
        here,
        choose-present cpu_id now idle false is m next,
        choose-present cpu_id now idle skip_idle is (OrdMap.insert i c' m) next,
        get-insert i next c' m,
      )
]

-- A change of one context sets whether it runs, if it is there.
running-modify :
    (i j : ℕ) (f : Context → Context) (m : OrdMap Context) (b : Bool)
    → ((c : Context) → (f c).running ≡ b)
    → is_running j (modify i f m)
      ≡ (if j == i && is_some (OrdMap.get i m) then b else is_running j m)
running-modify i j f m b h = elim (Option-cases (OrdMap.get i m)) [
  | inl gone ↦ ground (arith, gone)
  | inr (c, here) ↦ ground (arith, here, get-insert i j (f c) m, h c)
]

present-modify :
    (i j : ℕ) (f : Context → Context) (m : OrdMap Context)
    → is_some (OrdMap.get j (modify i f m)) ≡ is_some (OrdMap.get j m)
present-modify i j f m = elim (Option-cases (OrdMap.get i m)) [
  | inl gone ↦ ground (arith, gone)
  | inr (c, here) ↦ ground (arith, here, get-insert i j (f c) m)
]

-- The context that leaves has stopped, whether it is in the map or not.
running-leave :
    (switch_time i j : ℕ) (m : OrdMap Context)
    → is_running j (modify i (leave switch_time) m) ≡ (if j == i then false else is_running j m)
running-leave switch_time i j m = elim (Bool-cases (j == i)) [
  | inr other ↦
      rw other (running-modify i j (leave switch_time) m false (λ c. refl) ∙ ground (arith, other))
  | inl same ↦
      let eq : j ≡ i = ground arith in
      rw (same, eq) (running-modify i i (leave switch_time) m false (λ c. refl) ∙ ground arith)
]

-- What `switch` does to the contexts: it takes none, or one that did not run.
abbrev pub Switched : Scheduler → ℕ → Bool × Scheduler → Type 0
Switched s j (switched, s') =
    ((switched ≡ false)
      × (s'.current ≡ s.current)
      × (is_running j s'.contexts ≡ is_running j s.contexts))
    ⊎ ((switched ≡ true)
        × (is_running s'.current s.contexts ≡ false)
        × (is_running j s'.contexts ≡ (
            if j == s'.current
            then true
            else if j == s.current
            then false
            else is_running j s.contexts)))

-- Either `switch` takes no other context, and none starts or stops; or the context that it takes did
-- not run before, on any processor, runs now, and the one before it has stopped, while every other
-- context runs or not as before.
pub switch_lem :
    (cpu_id now switch_time : ℕ) (s : Scheduler) (j : ℕ)
    → Switched s j (switch cpu_id now switch_time s)
unfolding switch
switch_lem cpu_id now switch_time s j =
    let is = candidates s in
    let m = (choose cpu_id now s.idle true is s.contexts).1 in
    let same = choose_lem cpu_id now s.idle true is s.contexts j in
    elim (Option-cases (OrdMap.get s.current s.contexts)) [
      | inl gone ↦
          let stays : switch cpu_id now switch_time s ≡ (false, s) = ground (arith, gone) in
          subst (Switched s j) (sym stays) (inl (refl, refl, refl))
      | inr (prev, here) ↦ elim (Bool-cases prev.is_preemptable) [
        | inr fixed ↦
            let stays : switch cpu_id now switch_time s ≡ (false, s) =
              ground (arith, here, fixed) in
            subst (Switched s j) (sym stays) (inl (refl, refl, refl))
        | inl free ↦ elim (Option-cases (choose cpu_id now s.idle true is s.contexts).0) [
          | inl idles ↦
              let stays : switch cpu_id now switch_time s ≡ (false, record s { contexts = m }) =
                ground (arith, here, free, idles) in
              subst (Switched s j) (sym stays) (inl (refl, refl, same))
          | inr (next, taken) ↦
              let left = modify s.current (leave switch_time) m in
              let s' : Scheduler = record s {
                contexts = modify next (enter cpu_id switch_time) left;
                current = next;
              } in
              let takes : switch cpu_id now switch_time s ≡ (true, s') =
                ground (arith, here, free, taken) in
              let there : is_some (OrdMap.get next left) ≡ true =
                present-modify s.current next (leave switch_time) m
                ∙ choose-present cpu_id now s.idle true is s.contexts next taken in
              let started =
                running-modify next j (enter cpu_id switch_time) left true (λ c. refl) in
              let stopped = running-leave switch_time s.current j m in
              subst (Switched s j) (sym takes) (
                inr (
                  refl,
                  choose-free cpu_id now s.idle true is s.contexts next taken,
                  started ∙ ground (arith, there, stopped, same),
                ))
        ]
      ]
    ]
