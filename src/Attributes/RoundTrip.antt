-- ===== src/Attributes/RoundTrip.antt =====
-- The switches of the game zone and of the fans, written and read, on a firmware that keeps them.
use sc_control.Base.{
  ℕ, ◌*◌, ◌%◌, ◌^◌, ◌<◌, ◌≡◌, refl, sym, ◌∙◌, subst, ap, byte_of, signed32, Bool, true, false,
  String, none, some, [], ◌∷◌, if◌then◌else◌, ◌==◌, pos, arith,
}
use sc_control.Errno.{Result, ok, einval}
use sc_control.Firmware.State.{integer, Firmware, State, M, pure, or_code}
use sc_control.Firmware.Runs.{bind_ok, or_code_ok, evaluate_answer}
use sc_control.Firmware.Wmi.{
  int_result, status_result, wmi_exec_arg, wmi_exec_int, wmi_exec_noarg_int,
}
use sc_control.Firmware.Simple.{quot, negated, get_simple_wmi_attribute, set_simple_wmi_attribute}
use sc_control.PowerMode.Access.{gamezone_guid}
use sc_control.FanControl.FullSpeed.{fan_method_guid}
use sc_control.Attributes.Simple.{show_simple_wmi_attribute, store_simple_wmi_attribute}
use sc_control.Attributes.Wmi.{
  winkey_show, winkey_store, touchpad_show, touchpad_store, gsync_show, gsync_store, overdrive_show,
  overdrive_store, igpumode_show, igpumode_store, fan_maxspeed_show, fan_maxspeed_store,
}

-- The attributes that are read by one method and written by another.
pub data SwitchAttr : Type 0 where
  winkey touchpad gsync overdrive igpumode fan_maxspeed : SwitchAttr

-- Their interface, reading method and writing method, and whether the firmware means the opposite.
abbrev pub switch_guid : SwitchAttr → String
switch_guid fan_maxspeed = fan_method_guid
switch_guid _ = gamezone_guid

abbrev pub switch_methods : SwitchAttr → ℕ × ℕ
switch_methods winkey = (23, 22)
switch_methods touchpad = (26, 25)
switch_methods gsync = (41, 42)
switch_methods overdrive = (50, 51)
switch_methods igpumode = (64, 65)
switch_methods fan_maxspeed = (3, 4)

-- How many values an attribute tells apart.
abbrev pub switch_values : SwitchAttr → ℕ
switch_values winkey = 2
switch_values touchpad = 2
switch_values gsync = 2
switch_values _ = 256

-- A firmware that keeps the byte that the writing method was given, and returns it by the reading one.
pub record KeepsByte {F : Type 0} (fw : Firmware F) (guid : String) (methods : ℕ × ℕ) : Type 0 where
  pub present : fw.has_guid guid ≡ true
  pub kept_byte : F → ℕ
  pub next : ℕ → F → F
  pub answers :
      (f : F) → fw.evaluate_method guid 0 methods.0 [] f ≡ (some (some (integer (kept_byte f))), f)
  pub accepts :
      (b : ℕ) (f : F) → fw.evaluate_method guid 0 methods.1 (b ∷ []) f ≡ (some none, next b f)
  pub keeps : (b : ℕ) (f : F) → b < 256 → kept_byte (next b f) ≡ b

plain_byte : (w : ℕ) → w < 256 → byte_of (quot (signed32 w) (pos 1)) ≡ w
plain_byte w h = ground arith

inverted_byte :
    (w : ℕ) → w < 256 → byte_of (quot (negated (signed32 w)) (pos 1)) ≡ (if w == 0 then 1 else 0)
inverted_byte w h = ground arith

-- The value, or the opposite of it.
abbrev flipped : Bool → ℕ → ℕ
flipped inv v = if inv then (if v == 0 then 1 else 0) else v

flipped_twice :
    (inv : Bool) (w : ℕ) → w < (if inv then 2 else 256) → flipped inv (flipped inv w) ≡ w
flipped_twice true w h = ground arith
flipped_twice false w h = refl

-- What is printed of the number that is read.
abbrev scaled : Bool → ℕ → ℕ
scaled inv v = flipped inv (v * 1 % 2 ^ 64)

scaled_byte : (inv : Bool) (b : ℕ) → b < 256 → scaled inv b ≡ flipped inv b
scaled_byte inv b h = ground arith

byte_sent : (inv : Bool) (w : ℕ) → w < (if inv then 2 else 256) → flipped inv w < 256
byte_sent true w h = ground arith
byte_sent false w h = h

value_byte : (inv : Bool) (w : ℕ) → w < (if inv then 2 else 256) → w < 256
value_byte true w h = omega arith
value_byte false w h = h

module _ {F : Type 0} (fw : Firmware F) where
  -- The handlers of an attribute.
  abbrev pub switch_show : SwitchAttr → M F ℕ
  switch_show winkey = winkey_show fw
  switch_show touchpad = touchpad_show fw
  switch_show gsync = gsync_show fw
  switch_show overdrive = overdrive_show fw
  switch_show igpumode = igpumode_show fw
  switch_show fan_maxspeed = fan_maxspeed_show fw

  abbrev pub switch_store : SwitchAttr → Result ℕ → M F (Unit {0})
  switch_store winkey = winkey_store fw
  switch_store touchpad = touchpad_store fw
  switch_store gsync = gsync_store fw
  switch_store overdrive = overdrive_store fw
  switch_store igpumode = igpumode_store fw
  switch_store fan_maxspeed = fan_maxspeed_store fw

  module _ (guid : String) (methods : ℕ × ℕ) (law : KeepsByte fw guid methods) where
    sent :
        (b : ℕ) (s : State F)
        → wmi_exec_arg fw guid 0 methods.1 (b ∷ []) s
          ≡ (ok tt, record s { firmware = law.next b s.firmware })
    unfolding wmi_exec_arg
    sent b s =
        evaluate_answer fw status_result guid 0 methods.1 (b ∷ []) s _ _ law.present
          (law.accepts b s.firmware)

    received :
        (s : State F)
        → wmi_exec_noarg_int fw guid 0 methods.0 s ≡ (ok (law.kept_byte s.firmware), s)
    unfolding wmi_exec_noarg_int wmi_exec_int
    received s =
        evaluate_answer fw int_result guid 0 methods.0 [] s _ _ law.present (law.answers s.firmware)

    store_plain :
        (inv : Bool) (w : ℕ) (s : State F)
        → w < 256
        → store_simple_wmi_attribute fw guid 0 methods.1 inv (pos 1) (ok w) s
          ≡ wmi_exec_arg fw guid 0 methods.1 (flipped inv w ∷ []) s
    unfolding store_simple_wmi_attribute set_simple_wmi_attribute
    store_plain true w s h =
        ap (λ b. wmi_exec_arg fw guid 0 methods.1 (b ∷ []) s) (inverted_byte w h)
    store_plain false w s h = ap (λ b. wmi_exec_arg fw guid 0 methods.1 (b ∷ []) s) (plain_byte w h)

    show_plain :
        (inv : Bool) (s : State F)
        → law.kept_byte s.firmware < 256
        → (show_simple_wmi_attribute fw guid 0 methods.0 inv 1 s).0
          ≡ ok (flipped inv (law.kept_byte s.firmware))
    unfolding show_simple_wmi_attribute get_simple_wmi_attribute
    show_plain inv s h =
        let b = law.kept_byte s.firmware in
        let get : M F ℕ = wmi_exec_noarg_int fw guid 0 methods.0 in
        ap (λ p. p.0)
          (bind_ok (or_code get einval) (λ v. pure (scaled inv v)) s s b
            (or_code_ok get einval s s b (received s)))
        ∙ ap ok (scaled_byte inv b h)

    stored_shown :
        (inv : Bool) (w : ℕ) (s : State F)
        → w < (if inv then 2 else 256)
        → let (r, t) = store_simple_wmi_attribute fw guid 0 methods.1 inv (pos 1) (ok w) s in
          (r ≡ ok tt) × ((show_simple_wmi_attribute fw guid 0 methods.0 inv 1 t).0 ≡ ok w)
    stored_shown inv w s h =
        let b = flipped inv w in
        let l : b < 256 = byte_sent inv w h in
        let u = record s { firmware = law.next b s.firmware } in
        let kept = law.keeps b s.firmware l in
        let run = store_plain inv w s (value_byte inv w h) ∙ sent b s in
        subst
          (λ p.
            (p.0 ≡ ok tt) × ((show_simple_wmi_attribute fw guid 0 methods.0 inv 1 p.1).0 ≡ ok w))
          (sym run)
          (
            refl,
            show_plain inv u (subst (λ v. v < 256) (sym kept) l)
                ∙ ap ok (ap (flipped inv) kept ∙ flipped_twice inv w h),
          )

  -- On a firmware that keeps the byte it is sent, a switch of the game zone or of the fans is shown as it
  -- was stored, inverted attributes included: the store of 0 or 1 in `winkey`, `touchpad` or `gsync`, and
  -- of any byte in `overdrive`, `igpumode` or `fan_maxspeed`, succeeds, and the show then prints it.
  pub switch_round_trip :
      (attr : SwitchAttr) (w : ℕ) (s : State F)
      → KeepsByte fw (switch_guid attr) (switch_methods attr)
      → w < switch_values attr
      → let (r, t) = switch_store attr (ok w) s in (r ≡ ok tt) × ((switch_show attr t).0 ≡ ok w)
  unfolding winkey_show winkey_store touchpad_show touchpad_store gsync_show gsync_store
      overdrive_show overdrive_store igpumode_show igpumode_store fan_maxspeed_show
      fan_maxspeed_store
  switch_round_trip winkey w s law h = stored_shown gamezone_guid (23, 22) law true w s h
  switch_round_trip touchpad w s law h = stored_shown gamezone_guid (26, 25) law true w s h
  switch_round_trip gsync w s law h = stored_shown gamezone_guid (41, 42) law true w s h
  switch_round_trip overdrive w s law h = stored_shown gamezone_guid (50, 51) law false w s h
  switch_round_trip igpumode w s law h = stored_shown gamezone_guid (64, 65) law false w s h
  switch_round_trip fan_maxspeed w s law h = stored_shown fan_method_guid (3, 4) law false w s h
