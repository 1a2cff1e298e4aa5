-- ===== src/FanControl/FullSpeed.antt =====
-- The full speed of the fans by the model's access method, and its sysfs store.
use sc_control.Base.{
  ℕ, ◌≡◌, refl, ◌≢◌, Bool, true, false, not, ◌==◌, if◌then◌else◌, arith, String, ℤ, pos, negsuc,
}
use sc_control.Errno.{Result, ok, err, einval, ebusy}
use sc_control.Ec.{Ram}
use sc_control.Model.Config.{ModelConfig, AccessMethod, ec, wmi, wmi3, ec4}
use sc_control.Firmware.State.{Firmware, State, M, pure, fail, ◌>>=◌}
use sc_control.Firmware.Simple.{get_simple_wmi_attribute_bool, set_simple_wmi_attribute}
use sc_control.Firmware.Other.{wmi_other_method_get_value, wmi_other_method_set_value}
use sc_control.PowerMode.Access.{read_powermode}
use sc_control.FanControl.Switches.{
  ec_read_fanfullspeed, ec_write_fanfullspeed, ec_read_fanfullspeed_legion2024,
  ec_write_fanfullspeed_legion2024, fan_control_write_allowed,
}

abbrev pub fan_method_guid : String
fan_method_guid = "92549549-4bde-4f06-ac04-ce8bf898dbaa"

-- A read of the EC RAM, and a change of it, on the state.
abbrev pub from_ram : {F A : Type 0} → (Ram → Result A) → M F A
from_ram read s = (read s.ram, s)

abbrev pub on_ram : {F : Type 0} → (Ram → Ram) → M F (Unit {0})
on_ram change s = (ok tt, record s { ram = change s.ram })

-- The feature id of the full speed.
abbrev fan_fullspeed_feature : ℕ
fan_fullspeed_feature = 0x04020000

-- A feature's int as a bool.
abbrev int_to_bool : ℤ → Bool
int_to_bool (pos n) = not (n == 0)
int_to_bool (negsuc n) = true

abbrev bool_to_int : Bool → ℤ
bool_to_int b = if b then pos 1 else pos 0

-- Only the custom mode, 255, is allowed, where the model asks for it and the store turns it on.
unfoldable pub custom_guard : {F : Type 0} → Bool → Bool → Result ℤ × State F → M F (Unit {0})
custom_guard true true (ok (pos m), t) s = (if m == 255 then ok tt else err ebusy, t)
custom_guard true true (ok (negsuc m), t) s = (err ebusy, t)
custom_guard true true (err e, t) s = (err e, t)
custom_guard _ _ p s = (ok tt, s)

-- The step `act` after one that may have failed.
unfoldable pub when_ok : {F A : Type 0} → M F A → Result (Unit {0}) × State F → Result A × State F
when_ok act (ok _, t) = act t
when_ok act (err e, t) = (err e, t)

custom_guard_ok :
    {F : Type 0} (b c : Bool) (p : Result ℤ × State F) (s : State F)
    → b ≡ true
    → c ≡ true
    → (custom_guard b c p s).0 ≡ ok tt
    → p.0 ≡ ok (pos 255)
unfolding custom_guard
custom_guard_ok true true (ok (pos m), t) s x y h = ground arith
custom_guard_ok true true (ok (negsuc m), t) s x y h = cc
custom_guard_ok true true (err e, t) s x y h = cc
custom_guard_ok true false p s x y h = cc
custom_guard_ok false c p s x y h = cc

pub when_ok_ok :
    {F A : Type 0} (act : M F A) (p : Result (Unit {0}) × State F) (a : A)
    → (when_ok act p).0 ≡ ok a
    → p.0 ≡ ok tt
unfolding when_ok
when_ok_ok act (ok u, t) a h = refl
when_ok_ok act (err e, t) a h = cc

when_ok_next :
    {F A : Type 0} (act : M F A) (p : Result (Unit {0}) × State F) (a : A)
    → (when_ok act p).0 ≡ ok a
    → (act p.1).0 ≡ ok a
unfolding when_ok
when_ok_next act (ok u, t) a h = h
when_ok_next act (err e, t) a h = cc

module _ {F : Type 0} (fw : Firmware F) (ro : Bool) (conf : ModelConfig) where
  read_fanfullspeed_by : AccessMethod → M F Bool
  read_fanfullspeed_by ec = from_ram λ ram. ec_read_fanfullspeed ram conf
  read_fanfullspeed_by ec4 = from_ram ec_read_fanfullspeed_legion2024
  read_fanfullspeed_by wmi = get_simple_wmi_attribute_bool fw fan_method_guid 0 1 false 1
  read_fanfullspeed_by wmi3 = do
    res ← wmi_other_method_get_value fw fan_fullspeed_feature
    pure (int_to_bool res)
  read_fanfullspeed_by _ = fail einval

  -- `read_fanfullspeed`
  unfoldable pub read_fanfullspeed : M F Bool
  unfolding read_fanfullspeed_by
  read_fanfullspeed = read_fanfullspeed_by conf.access_method_fanfullspeed

  write_fanfullspeed_by : AccessMethod → Bool → M F (Unit {0})
  write_fanfullspeed_by ec state = on_ram λ ram. ec_write_fanfullspeed ro ram conf state
  write_fanfullspeed_by ec4 state = on_ram λ ram. ec_write_fanfullspeed_legion2024 ro ram state
  write_fanfullspeed_by wmi state =
      set_simple_wmi_attribute fw fan_method_guid 0 2 false (pos 1) (bool_to_int state)
  write_fanfullspeed_by wmi3 state = do
    _ ← wmi_other_method_set_value fw fan_fullspeed_feature (bool_to_int state)
    pure tt
  write_fanfullspeed_by _ state = fail einval

  -- `write_fanfullspeed`
  unfoldable pub write_fanfullspeed : Bool → M F (Unit {0})
  unfolding write_fanfullspeed_by
  write_fanfullspeed state = write_fanfullspeed_by conf.access_method_fanfullspeed state

  -- `fanfullspeed_write_allowed`
  unfoldable pub fanfullspeed_write_allowed : Bool → M F (Unit {0})
  fanfullspeed_write_allowed state s =
      custom_guard state conf.fanfullspeed_requires_custom_powermode (read_powermode fw ro conf s) s

  -- `fan_fullspeed_store`, from what `kstrtouint` made of the text.
  unfoldable pub fan_fullspeed_store : Result ℕ → M F (Unit {0})
  fan_fullspeed_store (err e) s = (err e, s)
  fan_fullspeed_store (ok word) s =
      let state = not (word == 0) in
      when_ok (λ t. when_ok (write_fanfullspeed state) (fanfullspeed_write_allowed state t))
        (fan_control_write_allowed s.ram conf, s)

  -- A store that turns the full speed on succeeds, on a model that requires the custom mode for it,
  -- only if the fan controller allows the write and the power mode is read as custom.
  pub fan_fullspeed_store_safe :
      (s : State F) (word : ℕ)
      → conf.fanfullspeed_requires_custom_powermode ≡ true
      → word ≢ 0
      → (fan_fullspeed_store (ok word) s).0 ≡ ok tt
      → (fan_control_write_allowed s.ram conf ≡ ok tt)
        × ((read_powermode fw ro conf s).0 ≡ ok (pos 255))
  unfolding fan_fullspeed_store fanfullspeed_write_allowed
  fan_fullspeed_store_safe s word c n h =
      let state = not (word == 0) in
      let go : M F (Unit {0}) =
        λ t. when_ok (write_fanfullspeed state) (fanfullspeed_write_allowed state t) in
      let unlocked = when_ok_ok go (fan_control_write_allowed s.ram conf, s) tt h in
      let allowed =
        when_ok_ok (write_fanfullspeed state) (fanfullspeed_write_allowed state s) tt
          (when_ok_next go (fan_control_write_allowed s.ram conf, s) tt h) in
      (
        unlocked,
        custom_guard_ok state conf.fanfullspeed_requires_custom_powermode
            (read_powermode fw ro conf s) s (ground arith) c allowed,
      )
