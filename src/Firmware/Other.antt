-- ===== src/Firmware/Other.antt =====
-- The Lenovo "other method" interface: a feature id and a value of 32 bits, little endian.
use sc_control.Base.{ℕ, ◌/◌, String, List, [], ◌∷◌, ◌++◌, ℤ, signed32, unsigned32, u8, u32}
use sc_control.Firmware.State.{Firmware, M, pure, ◌>>=◌}
use sc_control.Firmware.Wmi.{wmi_exec_int}

abbrev pub other_method_guid : String
other_method_guid = "dc2a8805-3a8c-41ba-a6f7-092e0089cd3b"

-- A `u32` in memory.
abbrev pub le32 : ℕ → List ℕ
le32 v = u8 v ∷ u8 (v / 256) ∷ u8 (v / 65536) ∷ u8 (v / 16777216) ∷ []

module _ {F : Type 0} (fw : Firmware F) where
  -- `wmi_other_method_get_value`: the result is converted to an int.
  unfoldable pub wmi_other_method_get_value : ℕ → M F ℤ
  unfolding wmi_exec_int
  wmi_other_method_get_value feature_id = do
    v ← wmi_exec_int fw other_method_guid 0 17 (le32 feature_id)
    pure (signed32 (u32 v))

  -- `wmi_other_method_set_value`
  unfoldable pub wmi_other_method_set_value : ℕ → ℤ → M F ℤ
  unfolding wmi_exec_int
  wmi_other_method_set_value feature_id value = do
    v ← wmi_exec_int fw other_method_guid 0 18 (le32 feature_id ++ le32 (unsigned32 value))
    pure (signed32 (u32 v))
