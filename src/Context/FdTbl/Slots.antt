-- ===== src/Context/FdTbl/Slots.antt =====
-- Slots of one descriptor table of src/context/context.rs, and the tag of a handle.
use redox_kernel.Common.{
  ℕ, zero, suc, ◌+◌, ◌-◌, ◌*◌, ◌/◌, ◌%◌, ◌^◌, ◌≤◌, ◌<◌, ◌≡◌, ◌⊎◌, inl, inr, refl, ap, ◌∙◌, bit_and,
  bit_or, Option, none, some, [], ◌∷◌, ◌++◌, ltb, ◌==◌, if◌then◌else◌, length, get_elem?, set,
  replicate, arith, bit_and_field, bit_or_field, bit_and-one, length-append, Bool-cases,
}
use redox_kernel.Context.FdTbl.{
  Table, FileDescriptor, context_max_files, resize, is_posix, strip_tags,
}

-- What redox_syscall says of `UPPER_FDTBL_TAG`: one bit, above every index of a table.
pub record IsTag (tag : ℕ) : Type 0 where
  pub bit : ℕ
  pub single : tag ≡ 2 ^ bit
  pub above : context_max_files < tag

tag_value : (tag i : ℕ) → IsTag tag → bit_and i tag ≡ i / tag % 2 * tag
tag_value tag i t = rw t.single (
    ap (λ m. bit_and i m) (omega arith)
    ∙ bit_and_field t.bit i 1
    ∙ ap (λ d. d * 2 ^ t.bit) (bit_and-one (i / 2 ^ t.bit)))

-- A handle carries the tag or not.
pub tag_cases : (tag i : ℕ) → IsTag tag → (bit_and i tag ≡ 0) ⊎ ((bit_and i tag ≡ tag) × (tag ≤ i))
tag_cases tag i t = elim (Bool-cases (i / tag % 2 == 0)) [
  | inl e ↦ inl (grind (arith, tag_value tag i t))
  | inr e ↦ inr (
      let odd : i / tag % 2 ≡ 1 = ground arith in
      let positive : 0 < tag = omega (arith, t.above) in
      let product : i / tag % 2 * tag ≡ tag = rw odd (omega arith) in
      (tag_value tag i t ∙ product, grind arith))
]

-- The table and the index in it determine the handle.
pub handle_unique :
    (tag i j : ℕ)
    → IsTag tag
    → is_posix tag i ≡ is_posix tag j
    → strip_tags tag i ≡ strip_tags tag j
    → i ≡ j
handle_unique tag i j t e f = ground (arith, tag_cases tag i t, tag_cases tag j t)

-- Tagging an index of the upper table, and taking the tag off again.
pub tagged :
    (tag i : ℕ)
    → IsTag tag
    → i < tag
    → (bit_or i tag ≡ i + tag) × (bit_and i tag ≡ 0) × (bit_and (i + tag) tag ≡ tag)
tagged tag i t h =
    let positive : 0 < tag = omega arith in
    let low : i / tag ≡ 0 = grind arith in
    let high : (i + tag) / tag ≡ 1 = grind arith in
    (
      (rw t.single (
          ap (λ m. bit_or i m) (omega arith)
          ∙ bit_or_field t.bit i 1 (omega (arith, t.single))
          ∙ omega arith)),
      tag_value tag i t ∙ rw low (omega arith),
      tag_value tag (i + tag) t ∙ rw high (omega arith),
    )

-- The descriptor at an index, if any.
abbrev pub slot : Table → ℕ → Option FileDescriptor
slot [] i = none
slot (s ∷ r) zero = s
slot (s ∷ r) (suc i) = slot r i

-- How many slots are taken.
abbrev pub used : Table → ℕ
used [] = 0
used (none ∷ r) = used r
used (some file ∷ r) = suc (used r)

pub slot-get_elem? :
    (t : Table) (i : ℕ) → slot t i ≡ elim (get_elem? t i) [ none ↦ none | some s ↦ s ]
slot-get_elem? [] i = refl
slot-get_elem? (s ∷ r) zero = refl
slot-get_elem? (s ∷ r) (suc i) = slot-get_elem? r i

pub slot-set :
    (t : Table) (i j : ℕ) (s : Option FileDescriptor)
    → i < length t
    → slot (set t i s) j ≡ (if j == i then s else slot t j)
slot-set [] i j s h = elim h [ ]
slot-set (x ∷ r) zero zero s h = refl
slot-set (x ∷ r) zero (suc j) s h = ground arith
slot-set (x ∷ r) (suc i) zero s h = ground arith
slot-set (x ∷ r) (suc i) (suc j) s h = ground (arith, slot-set r i j s (omega arith))

used-replicate : (n : ℕ) → used (replicate n none) ≡ 0
used-replicate zero = refl
used-replicate (suc n) = used-replicate n

slot-replicate : (n i : ℕ) → slot (replicate n none) i ≡ none
slot-replicate zero i = refl
slot-replicate (suc n) zero = refl
slot-replicate (suc n) (suc i) = slot-replicate n i

pub used-append : (t u : Table) → used (t ++ u) ≡ used t + used u
used-append [] u = omega arith
used-append (none ∷ r) u = used-append r u
used-append (some file ∷ r) u = omega (arith, used-append r u)

pub slot-append :
    (t u : Table) (i : ℕ)
    → slot (t ++ u) i ≡ (if ltb i (length t) then slot t i else slot u (i - length t))
slot-append [] u i = ground arith
slot-append (s ∷ r) u zero = ground arith
slot-append (s ∷ r) u (suc i) = ground (arith, slot-append r u i)

pub slot-beyond : (t : Table) (i : ℕ) → length t ≤ i → slot t i ≡ none
slot-beyond [] i h = refl
slot-beyond (s ∷ r) zero h = absurd (omega arith)
slot-beyond (s ∷ r) (suc i) h = slot-beyond r i (omega arith)

length-replicate : (n : ℕ) → length {A = Option FileDescriptor} (replicate n none) ≡ n
length-replicate zero = refl
length-replicate (suc n) = ap suc (length-replicate n)

-- Growing a table takes no slot and keeps every descriptor.
pub resize_lem :
    (t : Table) (n : ℕ)
    → length t ≤ n
    → (used (resize t n) ≡ used t)
      × ((i : ℕ) → slot (resize t n) i ≡ slot t i)
      × (length (resize t n) ≡ n)
resize_lem t n h = (
  omega (arith, used-append t (replicate (n - length t) none), used-replicate (n - length t)),
  λ i. ground (
    arith,
    slot-append t (replicate (n - length t) none) i,
    slot-replicate (n - length t) (i - length t),
    slot-beyond t i,
  ),
  omega
      (arith, length-append {0} t (replicate (n - length t) none), length-replicate (n - length t)),
)

pub used-set-some :
    (t : Table) (i : ℕ) (file : FileDescriptor)
    → i < length t
    → slot t i ≡ none
    → used (set t i (some file)) ≡ used t + 1
used-set-some [] i file h e = elim h [ ]
used-set-some (none ∷ r) zero file h e = omega arith
used-set-some (some x ∷ r) zero file h e = cc
used-set-some (none ∷ r) (suc i) file h e = used-set-some r i file (omega arith) e
used-set-some (some x ∷ r) (suc i) file h e = omega (arith, used-set-some r i file (omega arith) e)

pub used-set-none :
    (t : Table) (i : ℕ) (file : FileDescriptor)
    → slot t i ≡ some file
    → used (set t i none) + 1 ≡ used t
used-set-none [] i file e = cc
used-set-none (none ∷ r) zero file e = cc
used-set-none (some x ∷ r) zero file e = omega arith
used-set-none (none ∷ r) (suc i) file e = used-set-none r i file e
used-set-none (some x ∷ r) (suc i) file e = omega (arith, used-set-none r i file e)

pub slot-some-lt : (t : Table) (i : ℕ) {file : FileDescriptor} → slot t i ≡ some file → i < length t
slot-some-lt [] i e = cc
slot-some-lt (s ∷ r) zero e = omega arith
slot-some-lt (s ∷ r) (suc i) e = omega (arith, slot-some-lt r i e)

pub get_elem?_of_lt : (t : Table) (i : ℕ) → i < length t → get_elem? t i ≡ some (slot t i)
get_elem?_of_lt [] i h = elim h [ ]
get_elem?_of_lt (s ∷ r) zero h = refl
get_elem?_of_lt (s ∷ r) (suc i) h = get_elem?_of_lt r i (omega arith)
