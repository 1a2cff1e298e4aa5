-- ===== src/Firmware/Keeps.antt =====
-- What the calls into the firmware leave alone: an operation keeps the driver if only the firmware's own
-- state and the modes may differ after it. The rules follow the way the operations are composed.
use sc_control.Base.{ℕ, refl, Bool, true, false, String, List, if◌then◌else◌, signed32, u32}
use sc_control.Errno.{Result, ok, err, Errno}
use sc_control.Firmware.State.{Firmware, State, M, pure, ◌>>=◌}
use sc_control.Firmware.Wmi.{int_result, wmi_exec_int, wmi_exec_noarg_int}
use sc_control.Firmware.Acpi.{eval_int, resolve, evaluate_at}
use sc_control.Firmware.Other.{other_method_guid, le32, wmi_other_method_get_value}
use sc_control.FanControl.Keeps.{SameDriver, SameDriver-refl, SameDriver-trans, evaluate-SameDriver}

-- The operation keeps the driver, from every state.
pub record KeepsDriver {F A : Type 0} (m : M F A) : Type 0 where
  pub kept : (s : State F) → SameDriver s (m s).1

bind_from :
    {F A B : Type 0} {s : State F} (p : Result A × State F) (k : A → M F B)
    → SameDriver s p.1
    → ((a : A) → KeepsDriver (k a))
    → let q : Result B × State F =
        let (r, t) = p in
        elim r as (λ _. Result B × State F) [ ok a ↦ k a t | err e ↦ (err e, t) ] in
      SameDriver s q.1
bind_from (ok a, t) k h rest = SameDriver-trans h ((rest a).kept t)
bind_from (err e, t) k h rest = h

pub bind-KeepsDriver :
    {F A B : Type 0} (m : M F A) (k : A → M F B)
    → KeepsDriver m
    → ((a : A) → KeepsDriver (k a))
    → KeepsDriver (m >>= k)
bind-KeepsDriver m k h rest = record { kept = λ s. bind_from (m s) k (h.kept s) rest }

pub pure-KeepsDriver : {F A : Type 0} (a : A) → KeepsDriver {F = F} {A = A} (pure a)
pure-KeepsDriver a = record { kept = SameDriver-refl }

module _ {F : Type 0} (fw : Firmware F) where
  if_ok_or :
      (b c d : Bool) (e e' : Errno) (s : State F)
      → let p : Result (Unit {0}) × State F =
          if b
          then (if d then ok tt else err e, s)
          else if c
          then (ok tt, s)
          else (if d then ok tt else err e', s) in
        SameDriver s p.1
  if_ok_or true c d e e' s = SameDriver-refl s
  if_ok_or false true d e e' s = SameDriver-refl s
  if_ok_or false false d e e' s = SameDriver-refl s

  resolve-KeepsDriver : (name : String) → KeepsDriver (resolve fw name)
  unfolding resolve
  resolve-KeepsDriver name = record {
    kept = λ s. if_ok_or fw.since_7_0 fw.companion (fw.get_handle name) _ _ s;
  }

  evaluate_at-KeepsDriver : (name : String) → KeepsDriver (evaluate_at fw name)
  unfolding evaluate_at
  evaluate_at-KeepsDriver name = record {
    kept = λ s. record { same_ram = refl; same_fancurve = refl; same_valid = refl };
  }

  pub eval_int-KeepsDriver : (name : String) → KeepsDriver (eval_int fw name)
  unfolding eval_int
  eval_int-KeepsDriver name =
      bind-KeepsDriver (resolve fw name) (λ _. evaluate_at fw name) (resolve-KeepsDriver name)
        (λ _. evaluate_at-KeepsDriver name)

  pub wmi_exec_int-KeepsDriver :
      (guid : String) (i m : ℕ) (params : List ℕ) → KeepsDriver (wmi_exec_int fw guid i m params)
  unfolding wmi_exec_int
  wmi_exec_int-KeepsDriver guid i m params = record {
    kept = evaluate-SameDriver fw int_result guid i m params;
  }

  pub wmi_exec_noarg_int-KeepsDriver :
      (guid : String) (i m : ℕ) → KeepsDriver (wmi_exec_noarg_int fw guid i m)
  unfolding wmi_exec_noarg_int
  wmi_exec_noarg_int-KeepsDriver guid i m = wmi_exec_int-KeepsDriver guid i m _

  pub get_value-KeepsDriver : (id : ℕ) → KeepsDriver (wmi_other_method_get_value fw id)
  unfolding wmi_other_method_get_value
  get_value-KeepsDriver id =
      bind-KeepsDriver (wmi_exec_int fw other_method_guid 0 17 (le32 id))
        (λ v. pure (signed32 (u32 v))) (wmi_exec_int-KeepsDriver _ 0 17 _)
        (λ v. pure-KeepsDriver (signed32 (u32 v)))
