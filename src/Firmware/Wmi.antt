-- ===== src/Firmware/Wmi.antt =====
-- The wrappers of `wmi_evaluate_method`.
use sc_control.Base.{ℕ, String, List, [], Option, none, some, length, get_or, ◌==◌, if◌then◌else◌}
use sc_control.Errno.{Result, ok, err, enodev, efault, ae_error, eio, einval}
use sc_control.Firmware.State.{AcpiObject, integer, buffer, Firmware, M}

-- The result of `wmi_exec_int`
abbrev pub int_result : Option (Option AcpiObject) → Result ℕ
int_result none = err efault
int_result (some none) = err ae_error
int_result (some (some (integer v))) = ok v
int_result (some (some _)) = err ae_error

-- `acpi_process_buffer_to_ints`
unfoldable pub acpi_process_buffer_to_ints : ℕ → Option (Option AcpiObject) → Result (List ℕ)
acpi_process_buffer_to_ints ressize none = err efault
acpi_process_buffer_to_ints ressize (some none) = err ae_error
acpi_process_buffer_to_ints ressize (some (some (buffer bytes))) =
    if length bytes == ressize then ok bytes else err ae_error
acpi_process_buffer_to_ints ressize (some (some _)) = err ae_error

-- The result of `wmi_exec_noarg_int_or_buffer`
abbrev int_or_byte : ℕ → ℕ → Option (Option AcpiObject) → Result ℕ
int_or_byte ressize index none = err eio
int_or_byte ressize index (some none) = err eio
int_or_byte ressize index (some (some (integer v))) = if index == 0 then ok v else err einval
int_or_byte ressize index (some (some (buffer bytes))) =
    if length bytes == ressize then ok (get_or bytes index 0) else err einval
int_or_byte ressize index (some (some _)) = err einval

-- The result of `wmi_exec_arg`, which drops the output.
abbrev pub status_result : Option (Option AcpiObject) → Result (Unit {0})
status_result none = err eio
status_result (some _) = ok tt

module _ {F : Type 0} (fw : Firmware F) where
  -- `wmi_evaluate_method` on the state, its answer read by `read`.
  unfoldable pub evaluate :
      {A : Type 0} → (Option (Option AcpiObject) → Result A) → String → ℕ → ℕ → List ℕ → M F A
  evaluate read guid instance_id method params s =
      let (answer, f) = fw.evaluate_method guid instance_id method params s.firmware in
      if fw.has_guid guid then (read answer, record s { firmware = f }) else (err enodev, s)

  -- `wmi_exec_ints`
  unfoldable pub wmi_exec_ints : String → ℕ → ℕ → List ℕ → ℕ → M F (List ℕ)
  unfolding evaluate acpi_process_buffer_to_ints
  wmi_exec_ints guid i method params ressize =
      evaluate (acpi_process_buffer_to_ints ressize) guid i method params

  -- `wmi_exec_int`
  unfoldable pub wmi_exec_int : String → ℕ → ℕ → List ℕ → M F ℕ
  unfolding evaluate
  wmi_exec_int = evaluate int_result

  -- `wmi_exec_noarg_int`
  unfoldable pub wmi_exec_noarg_int : String → ℕ → ℕ → M F ℕ
  unfolding wmi_exec_int
  wmi_exec_noarg_int guid i method = wmi_exec_int guid i method []

  -- `wmi_exec_noarg_int_or_buffer`
  unfoldable pub wmi_exec_noarg_int_or_buffer : String → ℕ → ℕ → ℕ → ℕ → M F ℕ
  unfolding evaluate
  wmi_exec_noarg_int_or_buffer guid i method ressize index =
      evaluate (int_or_byte ressize index) guid i method []

  -- `wmi_exec_arg`
  unfoldable pub wmi_exec_arg : String → ℕ → ℕ → List ℕ → M F (Unit {0})
  unfolding evaluate
  wmi_exec_arg = evaluate status_result
