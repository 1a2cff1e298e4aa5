-- ===== src/Lights/RoundTrip.antt =====
-- The brightness of a light, set and read: over WMI on a firmware that keeps it, and in the EC register.
-- And what the range test of the IO-port light never reports.
use sc_control.Base.{
  ℕ, ◌+◌, ◌-◌, ◌≤◌, ◌<◌, ◌≡◌, ◌≢◌, refl, sym, ◌∙◌, subst, ap, true, false, if◌then◌else◌, ◌==◌,
  List, [], ◌∷◌, some, u8, u32, arith,
}
use sc_control.Errno.{ok, err, eio, enodev}
use sc_control.Ec.{Ram}
use sc_control.Model.Config.{ModelConfig}
use sc_control.Firmware.State.{integer, buffer, Firmware, State, M, pure, or_code}
use sc_control.Firmware.Wmi.{int_result, acpi_process_buffer_to_ints, wmi_exec_ints, wmi_exec_int}
use sc_control.Firmware.Runs.{bind_ok, or_code_ok, evaluate_answer}
use sc_control.Lights.{
  kbbacklight_guid, light_id_keyboard, light_id_ylogo, light_id_ioport, clamp_nat, brightness_of,
  light_params, refine, legion_wmi_light_get, legion_wmi_light_set, legion_ec_ylogo_get,
  legion_ec_ylogo_set,
}

-- The lights with the ids and the ranges that the driver uses for them.
pub data Light : Type 0 where
  keyboard ylogo ioport : Light

abbrev pub light_id : Light → ℕ
light_id keyboard = light_id_keyboard
light_id ylogo = light_id_ylogo
light_id ioport = light_id_ioport

abbrev pub lower_limit : Light → ℕ
lower_limit keyboard = 1
lower_limit _ = 0

abbrev pub upper_limit : Light → ℕ
upper_limit keyboard = 3
upper_limit ylogo = 1
upper_limit ioport = 2

-- `max_brightness`
abbrev pub max_brightness : Light → ℕ
max_brightness l = upper_limit l - lower_limit l

-- A firmware that keeps the two bytes that follow the light's id in a change, and answers them.
pub record KeepsLight {F : Type 0} (fw : Firmware F) (id : ℕ) : Type 0 where
  pub present : fw.has_guid kbbacklight_guid ≡ true
  pub first : F → ℕ
  pub second : F → ℕ
  pub next : ℕ → ℕ → F → F
  pub answers :
      (f : F)
      → fw.evaluate_method kbbacklight_guid 0 1 (id ∷ []) f
        ≡ (some (some (buffer (first f ∷ second f ∷ []))), f)
  pub accepts :
      (a b : ℕ) (f : F)
      → fw.evaluate_method kbbacklight_guid 0 2 (id ∷ a ∷ b ∷ []) f
        ≡ (some (some (integer 0)), next a b f)
  pub kept_first : (a b : ℕ) (f : F) → a < 256 → first (next a b f) ≡ a
  pub kept_second : (a b : ℕ) (f : F) → b < 256 → second (next a b f) ≡ b

-- The two bytes after the id of a change.
abbrev on_off : ℕ → ℕ
on_off b = if b == 0 then 2 else 1

abbrev level : ℕ → ℕ → ℕ → ℕ
level lo hi b = u8 (clamp_nat (u32 (b + lo)) lo hi)

keyboard_level : (b : ℕ) → b ≤ 2 → brightness_of 0 1 3 (1 ∷ level 1 3 b ∷ []) ≡ ok b
unfolding brightness_of
keyboard_level b h = ground arith

ioport_level : (b : ℕ) → b ≤ 2 → brightness_of 5 0 2 (1 ∷ level 0 2 b ∷ []) ≡ ok b
unfolding brightness_of
ioport_level b h = ground arith

ylogo_level : (b : ℕ) → b ≤ 1 → brightness_of 3 0 1 (on_off b ∷ 0 ∷ []) ≡ ok b
unfolding brightness_of
ylogo_level b h = ground arith

module _ {F : Type 0} (fw : Firmware F) where
  read_light :
      (id lo hi : ℕ) (law : KeepsLight fw id) (s : State F)
      → legion_wmi_light_get fw id lo hi s
        ≡ (brightness_of id lo hi (law.first s.firmware ∷ law.second s.firmware ∷ []), s)
  unfolding legion_wmi_light_get refine wmi_exec_ints acpi_process_buffer_to_ints
  read_light id lo hi law s =
      let bytes = law.first s.firmware ∷ law.second s.firmware ∷ [] in
      ap (refine (brightness_of id lo hi)) (
        or_code_ok (wmi_exec_ints fw kbbacklight_guid 0 1 (id ∷ []) 2) eio s s bytes (
          evaluate_answer fw (acpi_process_buffer_to_ints 2) kbbacklight_guid 0 1 (id ∷ []) s
            (some (some (buffer bytes))) s.firmware law.present (law.answers s.firmware)))

  module _ (id : ℕ) (law : KeepsLight fw id) where
    -- A change of the light, by the bytes after the id.
    set_light :
        (lo hi brightness a b : ℕ) (s : State F)
        → light_params id lo hi brightness ≡ (id ∷ a ∷ b ∷ [])
        → legion_wmi_light_set fw id lo hi brightness s
          ≡ (ok tt, record s { firmware = law.next a b s.firmware })
    unfolding legion_wmi_light_set wmi_exec_int
    set_light lo hi brightness a b s h =
        let write : List ℕ → M F ℕ = wmi_exec_int fw kbbacklight_guid 0 2 in
        let t = record s { firmware = law.next a b s.firmware } in
        bind_ok (or_code (write (light_params id lo hi brightness)) eio) (λ _. pure tt) s t 0
          (or_code_ok (write (light_params id lo hi brightness)) eio s t 0 (
            ap (λ params. write params s) h
            ∙ evaluate_answer fw int_result kbbacklight_guid 0 2 (id ∷ a ∷ b ∷ []) s _ _ law.present
                (law.accepts a b s.firmware)))

    set_read :
        (lo hi brightness a b : ℕ) (s : State F)
        → a < 256
        → b < 256
        → light_params id lo hi brightness ≡ (id ∷ a ∷ b ∷ [])
        → brightness_of id lo hi (a ∷ b ∷ []) ≡ ok brightness
        → let (r, t) = legion_wmi_light_set fw id lo hi brightness s in
          (r ≡ ok tt) × ((legion_wmi_light_get fw id lo hi t).0 ≡ ok brightness)
    set_read lo hi brightness a b s x y p q =
        let t = record s { firmware = law.next a b s.firmware } in
        let bytes =
          ap (λ c. c ∷ law.second t.firmware ∷ []) (law.kept_first a b s.firmware x)
          ∙ ap (λ c. a ∷ c ∷ []) (law.kept_second a b s.firmware y) in
        subst (λ u. (u.0 ≡ ok tt) × ((legion_wmi_light_get fw id lo hi u.1).0 ≡ ok brightness))
          (sym (set_light lo hi brightness a b s p))
          (refl, ap (λ u. u.0) (read_light id lo hi law t) ∙ ap (brightness_of id lo hi) bytes ∙ q)

  -- On a firmware that keeps the bytes of a light, setting one of the three lights to a brightness up to
  -- its greatest succeeds, and reading it then gives that brightness.
  pub light_round_trip :
      (l : Light) (brightness : ℕ) (s : State F)
      → KeepsLight fw (light_id l)
      → brightness ≤ max_brightness l
      → let (r, t) =
          legion_wmi_light_set fw (light_id l) (lower_limit l) (upper_limit l) brightness s in
        (r ≡ ok tt)
        × ((legion_wmi_light_get fw (light_id l) (lower_limit l) (upper_limit l) t).0
            ≡ ok brightness)
  unfolding light_params
  light_round_trip keyboard b s law h =
      set_read 0 law 1 3 b 1 (level 1 3 b) s (omega arith) (omega arith) refl (keyboard_level b h)
  light_round_trip ylogo b s law h =
      set_read 3 law 0 1 b (on_off b) 0 s (ground arith) (omega arith) refl (ylogo_level b h)
  light_round_trip ioport b s law h =
      set_read 5 law 0 2 b 1 (level 0 2 b) s (omega arith) (omega arith) refl (ioport_level b h)

-- With the range that the driver uses for the IO-port light, an answer whose second byte is 0 is read as a
-- brightness of 0, whatever the first byte, and no answer is read as that of a device that does not
-- exist; with the range 1 to 2 the answer with the second byte 0 would be.
pub ioport_never_missing :
    (first : ℕ) (rest bytes : List ℕ)
    → let read = brightness_of light_id_ioport (lower_limit ioport) (upper_limit ioport) in
      (read (first ∷ 0 ∷ rest) ≡ ok 0)
      × (read bytes ≢ err enodev)
      × (brightness_of light_id_ioport 1 2 (first ∷ 0 ∷ rest) ≡ err enodev)
unfolding brightness_of
ioport_never_missing first rest bytes = (refl, (λ h. ground arith), refl)

-- Where writes are enabled, the Y-logo in the EC register reads as it was set, for 0 to 2.
pub ec_ylogo_round_trip :
    (ram : Ram) (conf : ModelConfig) (brightness : ℕ)
    → brightness ≤ 2
    → let (r, after) = legion_ec_ylogo_set false ram conf brightness in
      (r ≡ ok tt) × (legion_ec_ylogo_get after conf ≡ ok brightness)
unfolding legion_ec_ylogo_set legion_ec_ylogo_get
ec_ylogo_round_trip ram conf brightness h = ground arith
