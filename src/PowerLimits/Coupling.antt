-- ===== src/PowerLimits/Coupling.antt =====
-- The coupling of the CPU's two power limits in a clamped store: the limit that is not stored is moved
-- where the new value would bring the two in the wrong order.
use sc_control.Base.{ℕ, ℤ, Bool, if◌then◌else◌}
use sc_control.Errno.{Result, ok, err}
use sc_control.Firmware.State.{Firmware, State, M}
use sc_control.Firmware.Other.{wmi_other_method_get_value}
use sc_control.PowerLimits.{wmi_common_method_other_store}

module _ {F : Type 0} (fw : Firmware F) where
  -- The write of the other limit, whose result is not looked at.
  unfoldable pub write_partner : (ℤ → ℤ → Bool) → ℕ → ℤ → Result ℤ × State F → State F
  write_partner exceeds partner value (ok limit, t) =
      if exceeds limit value then (wmi_common_method_other_store fw partner (ok value) t).1 else t
  write_partner exceeds partner value (err e, t) = t

  -- The step before the write of a limit: with the coupling on, the other limit is read and, where it
  -- and the new value are in the wrong order, set to the new value.
  unfoldable pub couple : (ℤ → ℤ → Bool) → ℕ → ℤ → State F → State F
  unfolding write_partner
  couple exceeds partner value s =
      if s.cpu_pl_coupling
      then write_partner exceeds partner value (wmi_other_method_get_value fw partner s)
      else s

  unfoldable pub coupled_store : (ℤ → ℤ → Bool) → ℕ → ℕ → Result ℤ → M F (Unit {0})
  unfolding couple
  coupled_store exceeds partner feature (err e) s = (err e, s)
  coupled_store exceeds partner feature (ok value) s =
      wmi_common_method_other_store fw feature (ok value) (couple exceeds partner value s)
