-- ===== src/Context/Timeout/Trigger.antt =====
-- `trigger` of src/context/timeout.rs fires exactly the timeouts that have elapsed.
use redox_kernel.Common.{
  ℕ, zero, suc, inl, inr, ◌⊎◌, ◌+◌, ◌<◌, ◌≤◌, ◌≡◌, ◌≢◌, refl, arith, List, [], ◌∷◌, ◌++◌, some,
  Bool, true, false, not, if◌then◌else◌, length, get_elem?, Bool-cases, length-append,
}
use redox_kernel.Context.Timeout.{
  Timeout, Registry, remove_at, should_trigger, fire, skip, done, check, trigger_loop, trigger,
}

-- The elements that pass a test, in order.
abbrev filter {ℓ} : {A : Type ℓ} → (A → Bool) → List A → List A
filter p [] = []
filter p (x ∷ xs) = if p x then x ∷ filter p xs else filter p xs

get_elem?-append :
    (front : Registry) (t : Timeout) (r : Registry)
    → get_elem? (front ++ t ∷ r) (length front) ≡ some t
get_elem?-append [] t r = refl
get_elem?-append (x ∷ front) t r = get_elem?-append front t r

remove_at-append :
    (front : Registry) (t : Timeout) (r : Registry)
    → remove_at (length front) (front ++ t ∷ r) ≡ some (t, front ++ r)
remove_at-append [] t r = refl
remove_at-append (x ∷ front) t r = rw (remove_at-append front t r) refl

append_one :
    (front : Registry) (t : Timeout) (r : Registry) → front ++ t ∷ r ≡ (front ++ t ∷ []) ++ r
append_one [] t r = refl
append_one (x ∷ front) t r = rw (append_one front t r) refl

append_nil : (xs : Registry) → xs ++ [] ≡ xs
append_nil [] = refl
append_nil (x ∷ xs) = rw (append_nil xs) refl

module _ (clock_monotonic clock_realtime mono real : ℕ) where
  check-end :
      (front : Registry)
      → check clock_monotonic clock_realtime mono real (length front) front ≡ done
  unfolding check
  check-end front = ground arith

  check-fire :
      (front : Registry) (t : Timeout) (r : Registry)
      → should_trigger clock_monotonic clock_realtime mono real t ≡ true
      → check clock_monotonic clock_realtime mono real (length front) (front ++ t ∷ r)
        ≡ fire t (front ++ r)
  unfolding check
  check-fire front t r e = ground (
    arith,
    length-append {0} front (t ∷ r),
    get_elem?-append front t r,
    remove_at-append front t r,
    e,
  )

  check-skip :
      (front : Registry) (t : Timeout) (r : Registry)
      → should_trigger clock_monotonic clock_realtime mono real t ≡ false
      → check clock_monotonic clock_realtime mono real (length front) (front ++ t ∷ r) ≡ skip
  unfolding check
  check-skip front t r e =
      ground (arith, length-append {0} front (t ∷ r), get_elem?-append front t r, e)

  -- From behind the entries that were passed.
  loop_lem :
      (fuel : ℕ) (front r : Registry)
      → length r < fuel
      → trigger_loop clock_monotonic clock_realtime mono real fuel (length front) (front ++ r)
        ≡ some (
          filter (should_trigger clock_monotonic clock_realtime mono real) r,
          front ++ filter (λ t. not (should_trigger clock_monotonic clock_realtime mono real t)) r,
        )
  unfolding trigger_loop
  loop_lem zero front r h = absurd (omega arith)
  loop_lem (suc fuel) front [] h = ground (arith, append_nil front, check-end front)
  loop_lem (suc fuel) front (t ∷ r) h =
      elim (Bool-cases (should_trigger clock_monotonic clock_realtime mono real t)) [
        | inl due ↦
            ground (arith, check-fire front t r due, loop_lem fuel front r (omega arith), due)
        | inr early ↦
            let passed : length front + 1 ≡ length (front ++ t ∷ []) =
              omega (arith, length-append {0} front (t ∷ [])) in
            let rest = loop_lem fuel (front ++ t ∷ []) r (omega arith) in
            let back =
              append_one front t
                (filter (λ t. not (should_trigger clock_monotonic clock_realtime mono real t)) r) in
            ground
              (arith, check-skip front t r early, early, passed, append_one front t r, rest, back)
      ]

  -- The time of a timeout has come on its clock, or its clock is neither of the two.
  abbrev pub IsDue : Timeout → Type 0
  IsDue t =
      ((t.clock ≡ clock_monotonic) × (t.time ≤ mono))
      ⊎ ((t.clock ≢ clock_monotonic) × (t.clock ≡ clock_realtime) × (t.time ≤ real))
      ⊎ ((t.clock ≢ clock_monotonic) × (t.clock ≢ clock_realtime))

  -- A registry, the timeouts in it that are due, and the others, each in their order
  pub data Parted : Registry → Registry → Registry → Type 0 where
    empty : Parted [] [] []
    due :
        (t : Timeout) (r fired left : Registry)
        → IsDue t
        → Parted r fired left
        → Parted (t ∷ r) (t ∷ fired) left
    early :
        (t : Timeout) (r fired left : Registry)
        → ¬ IsDue t
        → Parted r fired left
        → Parted (t ∷ r) fired (t ∷ left)

  filter-Parted :
      (r : Registry)
      → Parted r
          (filter (should_trigger clock_monotonic clock_realtime mono real) r)
          (filter (λ t. not (should_trigger clock_monotonic clock_realtime mono real t)) r)
  filter-Parted [] = empty
  filter-Parted (t ∷ r) =
      let fired = filter (should_trigger clock_monotonic clock_realtime mono real) r in
      let left = filter (λ t. not (should_trigger clock_monotonic clock_realtime mono real t)) r in
      elim (Bool-cases (should_trigger clock_monotonic clock_realtime mono real t)) [
        | inl h ↦ rw h (due t r fired left (ground arith) (filter-Parted r))
        | inr h ↦ rw h (early t r fired left (λ d. ground arith) (filter-Parted r))
      ]

  -- `trigger` ends and does not panic. It fires the timeouts on the monotonic clock whose time is not
  -- after its reading, those on the real-time clock whose time is not after its reading, and those
  -- with any other clock, each once and in the order of the registry, and keeps the others in their
  -- order.
  pub trigger_lem :
      (registry : Registry)
      → (fired : Registry) × (left : Registry) × (trigger clock_monotonic clock_realtime mono real
            registry
          ≡ some (fired, left))
        × Parted registry fired left
  unfolding trigger
  trigger_lem registry = (
    filter (should_trigger clock_monotonic clock_realtime mono real) registry,
    filter (λ t. not (should_trigger clock_monotonic clock_realtime mono real t)) registry,
    loop_lem (length registry + 1) [] registry (omega arith),
    filter-Parted registry,
  )
