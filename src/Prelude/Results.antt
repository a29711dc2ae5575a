-- ===== src/Prelude/Results.antt =====
-- `axerrno::LinuxError` as far as the kernel returns it, and `LinuxResult`.
use mathlib.Core.Path.{◌≡◌, refl}
use mathlib.Core.Logic.{◌⊎◌, inl, inr}
use mathlib.Core.Bool.{Bool, true, false}
use mathlib.Core.Option.{Option, none, some}

pub data LinuxError : Type 0 where
  eperm enoent esrch eintr ebadf echild eagain enomem efault eexist enotdir : LinuxError
  eisdir einval emfile epipe erange enosys eilseq eafnosupport eisconn eopnotsupp enodev :
      LinuxError

pub data LinuxResult {ℓ} (A : Type ℓ) : Type ℓ where
  ok : A → LinuxResult A
  err : LinuxError → LinuxResult A

-- `?` of a `Result`.
infixl 5 ◌>>=◌ ◌>>◌
abbrev pub ◌>>=◌ {ℓ κ} :
    {A : Type ℓ} {B : Type κ} → LinuxResult A → (A → LinuxResult B) → LinuxResult B
ok a >>= f = f a
err e >>= f = err e

abbrev pub ◌>>◌ {ℓ} : {B : Type ℓ} → LinuxResult (Unit {0}) → LinuxResult B → LinuxResult B
m >> k = m >>= λ _. k

-- `ok_or`.
abbrev pub ok_or {ℓ} : {A : Type ℓ} → Option A → LinuxError → LinuxResult A
ok_or none e = err e
ok_or (some a) e = ok a

-- `if !b { return Err(e) }`.
abbrev pub guard : Bool → LinuxError → LinuxResult (Unit {0})
guard true e = ok tt
guard false e = err e

pub LinuxResult-cases {ℓ} :
    {A : Type ℓ} (r : LinuxResult A) → ((e : LinuxError) × (r ≡ err e)) ⊎ ((a : A) × (r ≡ ok a))
LinuxResult-cases (ok a) = inr (a, refl)
LinuxResult-cases (err e) = inl (e, refl)

-- What a value that a result carries may be.
abbrev pub is_ok {ℓ} : {A : Type ℓ} → LinuxResult A → Bool
is_ok (ok a) = true
is_ok (err e) = false
