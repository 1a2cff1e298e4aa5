-- ===== src/Firmware/Runs.antt =====
-- A composed operation, from what its first part returns.
use sc_control.Base.{ℕ, String, List, Option, ◌≡◌, true, ap}
use sc_control.Errno.{Result, ok, err, Errno}
use sc_control.Firmware.State.{AcpiObject, Firmware, State, M, ◌>>=◌, or_code}
use sc_control.Firmware.Wmi.{evaluate}

pub bind_ok :
    {F A B : Type 0} (m : M F A) (k : A → M F B) (s t : State F) (a : A)
    → m s ≡ (ok a, t)
    → (m >>= k) s ≡ k a t
bind_ok {F = F} {A = A} {B = B} m k s t a h =
    ap
      (λ p.
        let (r, u) = p in elim r as (λ _. Result B × State F) [ ok b ↦ k b u | err e ↦ (err e, u) ])
      h

pub bind_err :
    {F A B : Type 0} (m : M F A) (k : A → M F B) (s t : State F) (e : Errno)
    → m s ≡ (err e, t)
    → (m >>= k) s ≡ (err e, t)
bind_err {F = F} {A = A} {B = B} m k s t e h =
    ap
      (λ p.
        let (r, u) = p in elim r as (λ _. Result B × State F) [ ok b ↦ k b u | err c ↦ (err c, u) ])
      h

pub or_code_ok :
    {F A : Type 0} (m : M F A) (e : Errno) (s t : State F) (a : A)
    → m s ≡ (ok a, t)
    → or_code m e s ≡ (ok a, t)
or_code_ok {F = F} {A = A} m e s t a h =
    ap
      (λ p.
        let (r, u) = p in
        elim r as (λ _. Result A × State F) [ ok b ↦ (ok b, u) | err _ ↦ (err e, u) ])
      h

module _ {F : Type 0} (fw : Firmware F) where
  pub evaluate_answer :
      {A : Type 0} (read : Option (Option AcpiObject) → Result A) (guid : String) (i m : ℕ)
      (params : List ℕ) (s : State F) (answer : Option (Option AcpiObject)) (f : F)
      → fw.has_guid guid ≡ true
      → fw.evaluate_method guid i m params s.firmware ≡ (answer, f)
      → evaluate fw read guid i m params s ≡ (read answer, record s { firmware = f })
  unfolding evaluate
  evaluate_answer read guid i m params s answer f h e = rw (h, e)
