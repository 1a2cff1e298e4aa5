-- ===== src/Errno.antt =====
-- The error codes of driver/legion-laptop.c, and the result of a function that returns 0 or a
-- negative code and its value through a pointer.
use sc_control.Base.{◌≡◌}

pub data Errno : Type 0 where
  eperm eacces eio enxio enomem efault ebusy eexist enodev einval erange eopnotsupp ae_error : Errno

pub data Result {ℓ} (A : Type ℓ) : Type ℓ where
  ok : A → Result A
  err : Errno → Result A

-- A property of the value of a result.
abbrev pub OnOk : {A : Type 0} → (A → Type 0) → Result A → Type 0
OnOk P (ok a) = P a
OnOk P (err _) = Unit {0}

pub OnOk-ok : {A : Type 0} (P : A → Type 0) {r : Result A} {a : A} → OnOk P r → r ≡ ok a → P a
OnOk-ok P h e = rw e at h
