-- ===== src/Firmware/State.antt =====
-- The state that the driver's operations share, the operations as a monad over it, and the calls into
-- the kernel and the firmware.
use sc_control.Base.{ℕ, ℤ, Bool, String, List, Option}
use sc_control.Errno.{Result, ok, err, Errno}
use sc_control.Ec.{Ram}
use sc_control.FanCurve.{FanCurve}

-- `union acpi_object`, as far as the driver looks into it; `other` is any third type.
pub data AcpiObject : Type 0 where
  integer : ℕ → AcpiObject
  buffer : List ℕ → AcpiObject
  other : AcpiObject

-- What the kernel and the firmware answer: `wmi_has_guid`; `wmi_evaluate_method` (none for a failure
-- status, and then no object for a NULL result); `acpi_get_handle`; `acpi_evaluate_integer`;
-- `acpi_execute_simple_method`. `since_7_0` is the kernel version test, `companion` says that there
-- is an ACPI companion device.
pub record Firmware (F : Type 0) : Type 0 where
  pub has_guid : String → Bool
  pub evaluate_method : String → ℕ → ℕ → List ℕ → F → Option (Option AcpiObject) × F
  pub get_handle : String → Bool
  pub evaluate_integer : String → F → Option ℕ × F
  pub execute_simple_method : String → ℕ → F → Bool × F
  pub since_7_0 : Bool
  pub companion : Bool

-- The EC RAM, the firmware, the fields of `struct legion_private` that operations change, and the
-- file's variables `fancurve_defaults_powermode` and `fan_unlock_state`.
pub record State (F : Type 0) : Type 0 where
  pub ram : Ram
  pub firmware : F
  pub fancurve : FanCurve
  pub fancurve_valid : Bool
  pub current_powermode : ℤ
  pub fancurve_defaults_powermode : ℤ
  pub fan_unlock_state : ℕ
  pub cpu_pl_coupling : Bool

abbrev pub M : Type 0 → Type 0 → Type 0
M F A = State F → Result A × State F

abbrev pub pure : {F A : Type 0} → A → M F A
pure a s = (ok a, s)

abbrev pub fail : {F A : Type 0} → Errno → M F A
fail e s = (err e, s)

infixl 5 ◌>>=◌ ◌>>◌
abbrev pub ◌>>=◌ : {F A B : Type 0} → M F A → (A → M F B) → M F B
◌>>=◌ m f s = let (r, t) = m s in elim r [ ok a ↦ f a t | err e ↦ (err e, t) ]

abbrev pub ◌>>◌ : {F B : Type 0} → M F (Unit {0}) → M F B → M F B
m >> k = m >>= λ _. k

-- Any failure of `m` becomes the one code.
abbrev pub or_code : {F A : Type 0} → M F A → Errno → M F A
or_code m e s = let (r, t) = m s in elim r [ ok a ↦ (ok a, t) | err _ ↦ (err e, t) ]
