-- ===== src/Common/Results.antt =====
-- What a kernel function returns: a value, an error number, or a panic of the kernel
-- (`expect`, `unwrap`, `assert!`, an index out of range).
use mathlib.Core.Path.{◌≡◌, refl}
use mathlib.Core.Logic.{◌⊎◌, inl, inr}
use mathlib.Core.Option.{Option, none, some}
use mathlib.Core.Bool.{Bool, true, false}

-- The error numbers of redox_syscall that the modelled code names.
pub data Errno : Type 0 where
  eagain ebadf ebusy eexist efault einval eintr emfile enoent enomem eacces epipe esrch etimedout :
      Errno

pub data Result {ℓ} (A : Type ℓ) : Type ℓ where
  panic : Result A
  err : Errno → Result A
  ok : A → Result A

-- `opt.ok_or(Error::new(e))`
abbrev pub ok_or {ℓ} : {A : Type ℓ} → Option A → Errno → Result A
ok_or none e = err e
ok_or (some a) e = ok a

-- `opt.expect(...)`
abbrev pub expect {ℓ} : {A : Type ℓ} → Option A → Result A
expect none = panic
expect (some a) = ok a

-- `if !test { return Err(e) }`
abbrev pub guard : Bool → Errno → Result (Unit {0})
guard false e = err e
guard true e = ok tt

module _ {ℓ} {B : Type ℓ} where
  infixl 5 ◌>>=◌ ◌>>◌
  -- `?`
  abbrev pub ◌>>=◌ {κ} : {A : Type κ} → Result A → (A → Result B) → Result B
  panic >>= f = panic
  err e >>= f = err e
  ok a >>= f = f a

  abbrev pub ◌>>◌ : Result (Unit {0}) → Result B → Result B
  first >> next = first >>= λ done. next

  -- What follows on a success ran on a value.
  pub >>=-ok {κ} :
      {A : Type κ} {b : B} (m : Result A) (f : A → Result B)
      → (m >>= f) ≡ ok b
      → (a : A) × (m ≡ ok a) × (f a ≡ ok b)
  >>=-ok panic f h = cc
  >>=-ok (err e) f h = cc
  >>=-ok (ok a) f h = (a, refl, h)

-- `assert!(test)`
abbrev pub assert : Bool → Result (Unit {0})
assert true = ok tt
assert false = panic

pub Result-cases {ℓ} :
    {A : Type ℓ} (r : Result A) → (r ≡ panic) ⊎ ((e : Errno) × (r ≡ err e)) ⊎ ((a : A) × (r ≡ ok a))
Result-cases panic = inl refl
Result-cases (err e) = inr (inl (e, refl))
Result-cases (ok a) = inr (inr (a, refl))
