-- ===== src/FanControl/Keeps.antt =====
-- What the calls into the firmware leave alone: the EC RAM and the remembered curve.
use sc_control.Base.{ℕ, ◌≡◌, refl, ◌∙◌, Bool, true, false, List, if◌then◌else◌, String, Option}
use sc_control.Errno.{Result, ok, err}
use sc_control.Model.Config.{ModelConfig}
use sc_control.Firmware.State.{AcpiObject, Firmware, State}
use sc_control.Firmware.Wmi.{
  evaluate, status_result, acpi_process_buffer_to_ints, wmi_exec_ints, wmi_exec_arg,
}
use sc_control.FanCurve.{FanCurve}
use sc_control.FanControl.WmiTable.{
  parse_answer, compare, verified, wmi_read_fancurve_custom, send_table, wmi_write_fancurve_custom,
}

-- Only the firmware's own state and the modes may differ.
pub record SameDriver {F : Type 0} (s t : State F) : Type 0 where
  pub same_ram : t.ram ≡ s.ram
  pub same_fancurve : t.fancurve ≡ s.fancurve
  pub same_valid : t.fancurve_valid ≡ s.fancurve_valid

pub SameDriver-refl : {F : Type 0} (s : State F) → SameDriver s s
SameDriver-refl s = record { same_ram = refl; same_fancurve = refl; same_valid = refl }

pub SameDriver-trans :
    {F : Type 0} {s t u : State F} → SameDriver s t → SameDriver t u → SameDriver s u
SameDriver-trans p q = record {
  same_ram = q.same_ram ∙ p.same_ram;
  same_fancurve = q.same_fancurve ∙ p.same_fancurve;
  same_valid = q.same_valid ∙ p.same_valid;
}

if-SameDriver :
    {F A : Type 0} (b : Bool) (r r' : Result A) (s : State F) (f : F)
    → let p : Result A × State F = if b then (r, record s { firmware = f }) else (r', s) in
      SameDriver s p.1
if-SameDriver true r r' s f = record { same_ram = refl; same_fancurve = refl; same_valid = refl }
if-SameDriver false r r' s f = SameDriver-refl s

module _ {F : Type 0} (fw : Firmware F) where
  pub evaluate-SameDriver :
      {A : Type 0} (read : Option (Option AcpiObject) → Result A) (guid : String) (i m : ℕ)
      (params : List ℕ) (s : State F)
      → SameDriver s (evaluate fw read guid i m params s).1
  unfolding evaluate
  evaluate-SameDriver read guid i m params s = if-SameDriver (fw.has_guid guid) _ _ s _

  pub wmi_exec_ints-SameDriver :
      (guid : String) (i m : ℕ) (params : List ℕ) (n : ℕ) (s : State F)
      → SameDriver s (wmi_exec_ints fw guid i m params n s).1
  unfolding wmi_exec_ints
  wmi_exec_ints-SameDriver guid i m params n s =
      evaluate-SameDriver (acpi_process_buffer_to_ints n) guid i m params s

  pub wmi_exec_arg-SameDriver :
      (guid : String) (i m : ℕ) (params : List ℕ) (s : State F)
      → SameDriver s (wmi_exec_arg fw guid i m params s).1
  unfolding wmi_exec_arg
  wmi_exec_arg-SameDriver guid i m params s = evaluate-SameDriver status_result guid i m params s

  module _ (model : ModelConfig) where
    parse_answer-SameDriver :
        (s : State F) (p : Result (List ℕ) × State F)
        → SameDriver s p.1
        → SameDriver s (parse_answer model p).1
    unfolding parse_answer
    parse_answer-SameDriver s (ok b, t) h = h
    parse_answer-SameDriver s (err e, t) h = h

    compare-SameDriver :
        (s : State F) (c : FanCurve) (p : Result FanCurve × State F)
        → SameDriver s p.1
        → SameDriver s (compare c p).1
    unfolding compare
    compare-SameDriver s c (ok d, t) h = h
    compare-SameDriver s c (err e, t) h = h

    pub wmi_read-SameDriver : (s : State F) → SameDriver s (wmi_read_fancurve_custom fw model s).1
    unfolding wmi_read_fancurve_custom
    wmi_read-SameDriver s = parse_answer-SameDriver s _ (wmi_exec_ints-SameDriver _ 0 5 _ 88 s)

    verified-SameDriver :
        (s : State F) (readback : State F → Result (Unit {0}) × State F) (b : Bool)
        (p : Result (Unit {0}) × State F)
        → ((t : State F) → SameDriver t (readback t).1)
        → SameDriver s p.1
        → SameDriver s (verified readback b p).1
    unfolding verified
    verified-SameDriver s readback true (ok u, t) k h = SameDriver-trans h (k t)
    verified-SameDriver s readback false (ok u, t) k h = h
    verified-SameDriver s readback true (err e, t) k h = h
    verified-SameDriver s readback false (err e, t) k h = h

    pub wmi_write-SameDriver :
        (c : FanCurve) (s : State F) → SameDriver s (wmi_write_fancurve_custom fw model c s).1
    unfolding wmi_write_fancurve_custom send_table
    wmi_write-SameDriver c s =
        verified-SameDriver s _ _ _ (λ t. compare-SameDriver t c _ (wmi_read-SameDriver t))
          (wmi_exec_arg-SameDriver _ 0 6 _ s)
