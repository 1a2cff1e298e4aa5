-- ===== src/Firmware/Raises.antt =====
-- Which errors a call into the firmware never gives: the codes that the sensors give for an unknown id
-- and for an access method that the model does not have.
use sc_control.Base.{
  ℕ, ◌≡◌, refl, Bool, true, false, String, List, [], if◌then◌else◌, Option, none, some,
}
use sc_control.Errno.{Result, ok, err, eexist, einval, enodev, eio}
use sc_control.Firmware.State.{AcpiObject, integer, buffer, other, Firmware, State, M, pure, ◌>>=◌}
use sc_control.Firmware.Wmi.{int_result, evaluate, wmi_exec_int, wmi_exec_noarg_int}
use sc_control.Firmware.Acpi.{integer_result, eval_int, resolve, evaluate_at}
use sc_control.Firmware.Other.{other_method_guid, le32, wmi_other_method_get_value}
use sc_control.Base.{signed32, u32}

-- Is the result one of these errors?
abbrev pub refused : {A : Type 0} → Result A → Bool
refused (err eexist) = true
refused (err einval) = true
refused _ = false

-- The operation never gives them.
pub record Known {F A : Type 0} (m : M F A) : Type 0 where
  pub known : (s : State F) → refused (m s).0 ≡ false

bind_not_refused :
    {F A B : Type 0} (p : Result A × State F) (k : A → M F B)
    → refused p.0 ≡ false
    → ((a : A) → Known (k a))
    → let q : Result B × State F =
        let (r, t) = p in
        elim r as (λ _. Result B × State F) [ ok a ↦ k a t | err e ↦ (err e, t) ] in
      refused q.0 ≡ false
bind_not_refused (ok a, t) k h r = (r a).known t
bind_not_refused (err eexist, t) k h r = h
bind_not_refused (err einval, t) k h r = h
bind_not_refused (err _, t) k h r = refl

pub bind-Known :
    {F A B : Type 0} (m : M F A) (k : A → M F B)
    → Known m
    → ((a : A) → Known (k a))
    → Known (m >>= k)
bind-Known m k h r = record { known = λ s. bind_not_refused (m s) k (h.known s) r }

pub pure-Known : {F A : Type 0} (a : A) → Known {F = F} {A = A} (pure a)
pure-Known a = record { known = λ s. refl }

int_result_not_refused : (o : Option (Option AcpiObject)) → refused (int_result o) ≡ false
int_result_not_refused none = refl
int_result_not_refused (some none) = refl
int_result_not_refused (some (some (integer v))) = refl
int_result_not_refused (some (some (buffer b))) = refl
int_result_not_refused (some (some other)) = refl

module _ {F : Type 0} (fw : Firmware F) where
  evaluated_not_refused :
      (b : Bool) (o : Option (Option AcpiObject)) (s t : State F)
      → let p : Result ℕ × State F = if b then (int_result o, t) else (err enodev, s) in
        refused p.0 ≡ false
  evaluated_not_refused true o s t = int_result_not_refused o
  evaluated_not_refused false o s t = refl

  pub wmi_exec_int-Known :
      (guid : String) (i m : ℕ) (params : List ℕ) → Known (wmi_exec_int fw guid i m params)
  unfolding wmi_exec_int evaluate
  wmi_exec_int-Known guid i m params = record {
    known = λ s.
        evaluated_not_refused (fw.has_guid guid) (fw.evaluate_method guid i m params s.firmware).0 s
          (record s { firmware = (fw.evaluate_method guid i m params s.firmware).1 });
  }

  pub wmi_exec_noarg_int-Known : (guid : String) (i m : ℕ) → Known (wmi_exec_noarg_int fw guid i m)
  unfolding wmi_exec_noarg_int
  wmi_exec_noarg_int-Known guid i m = wmi_exec_int-Known guid i m []

  pub get_value-Known : (id : ℕ) → Known (wmi_other_method_get_value fw id)
  unfolding wmi_other_method_get_value
  get_value-Known id =
      bind-Known (wmi_exec_int fw other_method_guid 0 17 (le32 id)) (λ v. pure (signed32 (u32 v)))
        (wmi_exec_int-Known other_method_guid 0 17 (le32 id)) (λ v. pure-Known (signed32 (u32 v)))

  resolved_not_refused :
      (b c d : Bool) (s : State F)
      → let p : Result (Unit {0}) × State F =
          if b
          then (if d then ok tt else err eio, s)
          else if c
          then (ok tt, s)
          else (if d then ok tt else err enodev, s) in
        refused p.0 ≡ false
  resolved_not_refused true c true s = refl
  resolved_not_refused true c false s = refl
  resolved_not_refused false true d s = refl
  resolved_not_refused false false true s = refl
  resolved_not_refused false false false s = refl

  integer_not_refused : (o : Option ℕ) → refused (integer_result o) ≡ false
  integer_not_refused none = refl
  integer_not_refused (some v) = refl

  pub eval_int-Known : (name : String) → Known (eval_int fw name)
  unfolding eval_int resolve evaluate_at
  eval_int-Known name =
      bind-Known (resolve fw name) (λ _. evaluate_at fw name)
        (record {
          known = λ s. resolved_not_refused fw.since_7_0 fw.companion (fw.get_handle name) s;
        })
        (λ _. record { known = λ s. integer_not_refused (fw.evaluate_integer name s.firmware).0 })
