-- ===== src/Attributes/Battery.antt =====
-- The rapid charge and the conservation of the battery, and the function lock of the keyboard, over ACPI.
use Prim.Native.Nat.{bit_and}
use sc_control.Base.{ℕ, Bool, not, ◌==◌, if◌then◌else◌}
use sc_control.Errno.{Result, ok, err, einval}
use sc_control.Model.Config.{ModelConfig}
use sc_control.Firmware.State.{Firmware, M, pure, fail, ◌>>=◌}
use sc_control.Firmware.Acpi.{exec_sbmc, exec_sals, eval_gbmd, eval_hals}

-- Is one of the bits of the mask set?
abbrev pub has_bits : ℕ → ℕ → Bool
has_bits mask word = not (bit_and word mask == 0)

module _ {F : Type 0} (fw : Firmware F) (model : ModelConfig) where
  -- `acpi_read_rapidcharge`
  unfoldable pub acpi_read_rapidcharge : M F Bool
  unfolding eval_gbmd
  acpi_read_rapidcharge = do result ← eval_gbmd fw model; pure (has_bits 0x04 result)

  -- `acpi_write_rapidcharge`
  unfoldable pub acpi_write_rapidcharge : Bool → M F (Unit {0})
  unfolding exec_sbmc
  acpi_write_rapidcharge state = exec_sbmc fw model (if state then 0x07 else 0x08)

  -- `acpi_read_conservation`
  unfoldable pub acpi_read_conservation : M F Bool
  unfolding eval_gbmd
  acpi_read_conservation = do result ← eval_gbmd fw model; pure (has_bits 0x20 result)

  -- `acpi_write_conservation`
  unfoldable pub acpi_write_conservation : Bool → M F (Unit {0})
  unfolding exec_sbmc
  acpi_write_conservation state = exec_sbmc fw model (if state then 0x03 else 0x05)

  -- `rapidcharge_show`
  unfoldable pub rapidcharge_show : M F Bool
  unfolding acpi_read_rapidcharge
  rapidcharge_show = acpi_read_rapidcharge

  -- `rapidcharge_store`: any number but 0 turns it on.
  unfoldable pub rapidcharge_store : Result ℕ → M F (Unit {0})
  unfolding acpi_write_rapidcharge
  rapidcharge_store (err e) = fail e
  rapidcharge_store (ok word) = acpi_write_rapidcharge (not (word == 0))

  -- `battery_conservation_show`
  unfoldable pub battery_conservation_show : M F Bool
  unfolding acpi_read_conservation
  battery_conservation_show = acpi_read_conservation

  -- `battery_conservation_store`
  unfoldable pub battery_conservation_store : Result ℕ → M F (Unit {0})
  unfolding acpi_write_conservation
  battery_conservation_store (err e) = fail e
  battery_conservation_store (ok word) = acpi_write_conservation (not (word == 0))

  -- `fn_lock_show`
  unfoldable pub fn_lock_show : M F Bool
  unfolding eval_hals
  fn_lock_show = do result ← eval_hals fw model; pure (has_bits 0x0400 result)

  -- `fn_lock_store`
  unfoldable pub fn_lock_store : Result Bool → M F (Unit {0})
  unfolding exec_sals
  fn_lock_store (err _) = fail einval
  fn_lock_store (ok enable) = exec_sals fw model (if enable then 0x0e else 0x0f)
