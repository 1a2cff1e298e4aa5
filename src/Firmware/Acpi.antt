-- ===== src/Firmware/Acpi.antt =====
-- The wrappers of the ACPI calls, and the calls by the model's paths.
use sc_control.Base.{ℕ, Bool, false, String, Option, none, some, if◌then◌else◌}
use sc_control.Errno.{Result, ok, err, eio, enodev, einval}
use sc_control.Model.Config.{
  ModelConfig, get_model_acpi_path, acpi_path_read_rapidcharge, acpi_path_write_rapidcharge,
  acpi_path_read_powermode, acpi_path_read_fnlock, acpi_path_write_fnlock,
}
use sc_control.Firmware.State.{Firmware, M, fail, ◌>>◌}

abbrev pub integer_result : Option ℕ → Result ℕ
integer_result none = err eio
integer_result (some v) = ok v

module _ {F : Type 0} (fw : Firmware F) where
  -- The handle of a name: from the root since kernel 7.0 or where there is no companion device.
  unfoldable pub resolve : String → M F (Unit {0})
  resolve name s =
      if fw.since_7_0
      then (if fw.get_handle name then ok tt else err eio, s)
      else if fw.companion
      then (ok tt, s)
      else (if fw.get_handle name then ok tt else err enodev, s)

  unfoldable pub evaluate_at : String → M F ℕ
  evaluate_at name s =
      let (answer, f) = fw.evaluate_integer name s.firmware in
      (integer_result answer, record s { firmware = f })

  execute_at : String → ℕ → M F (Unit {0})
  execute_at name arg s =
      let (success, f) = fw.execute_simple_method name arg s.firmware in
      (if success then ok tt else err eio, record s { firmware = f })

  -- `eval_int`
  unfoldable pub eval_int : String → M F ℕ
  unfolding resolve evaluate_at
  eval_int name = resolve name >> evaluate_at name

  -- `exec_simple_method`
  unfoldable pub exec_simple_method : String → ℕ → M F (Unit {0})
  unfolding resolve execute_at
  exec_simple_method name arg = resolve name >> execute_at name arg

  -- `acpi_method_exists`
  unfoldable pub acpi_method_exists : Option String → Bool
  acpi_method_exists none = false
  acpi_method_exists (some name) = fw.get_handle name

  module _ (model : ModelConfig) where
    -- A call by a path of the model. Only the two function-lock paths can be NULL, which is einval;
    -- the other three have a default.
    by_path : {A : Type 0} → ℕ → (String → M F A) → M F A
    by_path id call = elim (get_model_acpi_path model id) [ none ↦ fail einval | some p ↦ call p ]

    -- `exec_sbmc`
    unfoldable pub exec_sbmc : ℕ → M F (Unit {0})
    unfolding by_path exec_simple_method
    exec_sbmc arg = by_path acpi_path_write_rapidcharge (λ p. exec_simple_method p arg)

    -- `exec_sals`
    unfoldable pub exec_sals : ℕ → M F (Unit {0})
    unfolding by_path exec_simple_method
    exec_sals arg = by_path acpi_path_write_fnlock (λ p. exec_simple_method p arg)

    -- `eval_gbmd`
    unfoldable pub eval_gbmd : M F ℕ
    unfolding by_path eval_int
    eval_gbmd = by_path acpi_path_read_rapidcharge eval_int

    -- `eval_hals`
    unfoldable pub eval_hals : M F ℕ
    unfolding by_path eval_int
    eval_hals = by_path acpi_path_read_fnlock eval_int

    -- `eval_spmo`
    unfoldable pub eval_spmo : M F ℕ
    unfolding by_path eval_int
    eval_spmo = by_path acpi_path_read_powermode eval_int
