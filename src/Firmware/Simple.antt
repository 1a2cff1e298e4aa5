-- ===== src/Firmware/Simple.antt =====
-- The attributes that are one WMI value: `get_simple_wmi_attribute` and its kin.
use sc_control.Base.{
  ℕ, zero, suc, ◌*◌, ◌/◌, ◌%◌, ◌^◌, Bool, false, not, String, [], ◌∷◌, ◌==◌, if◌then◌else◌, ℤ, pos,
  negsuc, byte_of,
}
use sc_control.Errno.{einval}
use sc_control.Firmware.State.{Firmware, M, pure, fail, or_code, ◌>>=◌}
use sc_control.Firmware.Wmi.{wmi_exec_noarg_int, wmi_exec_arg}

-- C's division of two ints, which truncates towards zero.
abbrev opposite : ℕ → ℤ
opposite zero = pos 0
opposite (suc n) = negsuc n

abbrev pub quot : ℤ → ℤ → ℤ
quot (pos a) (pos b) = pos (a / b)
quot (pos a) (negsuc b) = opposite (a / suc b)
quot (negsuc a) (pos b) = opposite (suc a / b)
quot (negsuc a) (negsuc b) = pos (suc a / suc b)

abbrev is_zero : ℤ → Bool
is_zero (pos n) = n == 0
is_zero (negsuc n) = false

-- `!state`
abbrev pub negated : ℤ → ℤ
negated v = if is_zero v then pos 1 else pos 0

module _ {F : Type 0} (fw : Firmware F) where
  -- `get_simple_wmi_attribute`, over the 64 bits of an unsigned long.
  unfoldable pub get_simple_wmi_attribute : String → ℕ → ℕ → Bool → ℕ → M F ℕ
  unfolding wmi_exec_noarg_int
  get_simple_wmi_attribute guid i method invert scale =
      if scale == 0
      then fail einval
      else or_code (wmi_exec_noarg_int fw guid i method) einval >>= λ state.
          let scaled = state * scale % 2 ^ 64 in
          pure (if invert then (if scaled == 0 then 1 else 0) else scaled)

  -- `get_simple_wmi_attribute_bool`
  unfoldable pub get_simple_wmi_attribute_bool : String → ℕ → ℕ → Bool → ℕ → M F Bool
  unfolding get_simple_wmi_attribute
  get_simple_wmi_attribute_bool guid i method invert scale = do
    v ← get_simple_wmi_attribute guid i method invert scale
    pure (not (v == 0))

  -- `set_simple_wmi_attribute`
  unfoldable pub set_simple_wmi_attribute : String → ℕ → ℕ → Bool → ℤ → ℤ → M F (Unit {0})
  unfolding wmi_exec_arg
  set_simple_wmi_attribute guid i method invert scale state =
      let wanted = if invert then negated state else state in
      if is_zero scale
      then fail einval
      else wmi_exec_arg fw guid i method (byte_of (quot wanted scale) ∷ [])
