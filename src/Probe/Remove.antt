-- ===== src/Probe/Remove.antt =====
-- `legion_remove`, and the probe's success up to it: everything that a probe took is given back.
use sc_control.Base.{
  ℕ, ◌≡◌, refl, sym, ◌∙◌, ap, subst, Bool, true, false, not, ◌==◌, if◌then◌else◌, List, [], ◌∷◌,
  ◌++◌, All, ◌⊎◌, inl, inr, arith,
}
use sc_control.Model.Config.{ModelConfig}
use sc_control.Firmware.State.{Firmware}
use sc_control.PowerMode.Access.{toggle_powermode}
use sc_control.Probe.{
  Resource, memory_map, io_ports, debugfs_dir, sysfs_group, hwmon_device, profile_handler,
  wmi_driver, kbd_led, ylogo_led, ioport_led, index_of, Kernel, Driver, without, release,
  own_profile, legion_shared_exit, ecram_memoryio_exit, ecram_exit, ecram_portio_exit,
  legion_debugfs_exit, legion_sysfs_exit, legion_hwmon_exit, legion_wmi_exit,
  legion_platform_profile_exit,
}
use sc_control.Probe.Leds.{holds, legion_light_exit, legion_kbd_bl_exit}

-- `legion_remove`
unfoldable pub legion_remove :
    {F : Type 0} → Firmware F → Bool → Kernel → ModelConfig → Driver F → Driver F
legion_remove fw ro k conf d =
    let unloading = record d { loaded = false } in
    let dark =
      legion_kbd_bl_exit (legion_light_exit ylogo_led (legion_light_exit ioport_led unloading)) in
    let quiet = legion_platform_profile_exit k (legion_wmi_exit dark) in
    let toggled = record quiet { state = toggle_powermode fw ro conf quiet.state } in
    legion_shared_exit (
      ecram_memoryio_exit
        (ecram_exit (legion_debugfs_exit (legion_sysfs_exit (legion_hwmon_exit toggled)))))

-- The resources without all those of a list.
abbrev without_all : List Resource → List Resource → List Resource
without_all [] h = h
without_all (r ∷ rs) h = without_all rs (without r h)

cases_eq : (a b : ℕ) → ((a == b) ≡ true) ⊎ (((a == b) ≡ false) × ((b == a) ≡ false))
cases_eq a b = elim (flags (a == b)) [ inl e ↦ inl e | inr e ↦ inr (e, ground arith) ]
  where
    flags : (c : Bool) → (c ≡ true) ⊎ (c ≡ false)
    flags true = inl refl
    flags false = inr refl

left_over :
    (r : Resource) (rs h : List Resource)
    → All (λ x. holds x (r ∷ rs) ≡ true) h
    → All (λ x. holds x rs ≡ true) (without r h)
unfolding holds without
left_over r rs [] a = tt
left_over r rs (x ∷ h) a = elim (cases_eq (index_of r) (index_of x)) [
  | inl e ↦
      subst (λ b. All (λ y. holds y rs ≡ true) (if b then without r h else x ∷ without r h)) (sym e)
        (left_over r rs h a.1)
  | inr e ↦
      subst (λ b. All (λ y. holds y rs ≡ true) (if b then without r h else x ∷ without r h))
        (sym e.0) (ap (λ b. if b then true else holds x rs) (sym e.1) ∙ a.0, left_over r rs h a.1)
]

nothing_left : (rs h : List Resource) → All (λ x. holds x rs ≡ true) h → without_all rs h ≡ []
unfolding holds
nothing_left [] [] a = refl
nothing_left [] (x ∷ h) a = cc
nothing_left (r ∷ rs) h a = nothing_left rs (without r h) (left_over r rs h a)

-- The resources that a driver with this kernel and these parameters takes itself.
abbrev pub Own : Kernel → Resource → Type 0
Own k profile_handler = own_profile k ≡ true
Own k _ = Unit {0}

abbrev first_taken : List Resource
first_taken = hwmon_device ∷ sysfs_group ∷ debugfs_dir ∷ io_ports ∷ memory_map ∷ []

abbrev last_taken : List Resource
last_taken = ioport_led ∷ ylogo_led ∷ kbd_led ∷ wmi_driver ∷ []

abbrev every : Bool → List Resource
every b = last_taken ++ (if b then profile_handler ∷ first_taken else first_taken)

Own-every :
    (k : Kernel) (b : Bool) (x : Resource) → own_profile k ≡ b → Own k x → holds x (every b) ≡ true
unfolding holds
Own-every k true memory_map e o = refl
Own-every k true io_ports e o = refl
Own-every k true debugfs_dir e o = refl
Own-every k true sysfs_group e o = refl
Own-every k true hwmon_device e o = refl
Own-every k true profile_handler e o = refl
Own-every k true wmi_driver e o = refl
Own-every k true kbd_led e o = refl
Own-every k true ylogo_led e o = refl
Own-every k true ioport_led e o = refl
Own-every k false profile_handler e o = sym e ∙ o
Own-every k false memory_map e o = refl
Own-every k false io_ports e o = refl
Own-every k false debugfs_dir e o = refl
Own-every k false sysfs_group e o = refl
Own-every k false hwmon_device e o = refl
Own-every k false wmi_driver e o = refl
Own-every k false kbd_led e o = refl
Own-every k false ylogo_led e o = refl
Own-every k false ioport_led e o = refl

All-every :
    (k : Kernel) (h : List Resource)
    → All (Own k) h
    → All (λ x. holds x (every (own_profile k)) ≡ true) h
All-every k [] a = tt
All-every k (x ∷ h) a = (Own-every k (own_profile k) x refl a.0, All-every k h a.1)

exit_by :
    {F : Type 0} (enabled newer : Bool) (d : Driver F)
    → let u = if enabled then (if newer then d else release profile_handler d) else d in
      u.held
      ≡ (if (if enabled then not newer else false) then without profile_handler d.held else d.held)
exit_by true true d = refl
exit_by true false d = refl
exit_by false newer d = refl

profile_exit-held :
    {F : Type 0} (k : Kernel) (d : Driver F)
    → (legion_platform_profile_exit k d).held
      ≡ (if own_profile k then without profile_handler d.held else d.held)
unfolding legion_platform_profile_exit
profile_exit-held k d = exit_by k.enable_platformprofile k.since_6_14 d

loaded_by :
    {F : Type 0} (enabled newer : Bool) (d : Driver F)
    → let u = if enabled then (if newer then d else release profile_handler d) else d in
      u.loaded ≡ d.loaded
loaded_by true true d = refl
loaded_by true false d = refl
loaded_by false newer d = refl

exit-loaded :
    {F : Type 0} (k : Kernel) (d : Driver F) → (legion_platform_profile_exit k d).loaded ≡ d.loaded
unfolding legion_platform_profile_exit
exit-loaded k d = loaded_by k.enable_platformprofile k.since_6_14 d

every_lem :
    (b : Bool) (h : List Resource)
    → let quiet = without_all last_taken h in
      without_all first_taken (if b then without profile_handler quiet else quiet)
      ≡ without_all (every b) h
every_lem true h = refl
every_lem false h = refl

-- Removing the driver leaves none of its own resources held, whatever they were, and no shared driver.
pub remove_releases :
    {F : Type 0} (fw : Firmware F) (ro : Bool) (k : Kernel) (conf : ModelConfig) (d : Driver F)
    → All (Own k) d.held
    → let t = legion_remove fw ro k conf d in
      (t.held ≡ []) × (t.shared ≡ false) × (t.loaded ≡ false)
unfolding legion_remove legion_shared_exit ecram_memoryio_exit ecram_exit ecram_portio_exit
    legion_debugfs_exit legion_sysfs_exit legion_hwmon_exit legion_wmi_exit legion_light_exit
    legion_kbd_bl_exit
remove_releases fw ro k conf d a =
    let quiet = record d { loaded = false; held = without_all last_taken d.held } in
    (
      ap (without_all first_taken) (profile_exit-held k quiet)
          ∙ every_lem (own_profile k) d.held
          ∙ nothing_left (every (own_profile k)) d.held (All-every k d.held a),
      refl,
      exit-loaded k quiet,
    )
