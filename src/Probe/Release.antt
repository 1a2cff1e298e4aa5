-- ===== src/Probe/Release.antt =====
-- A probe that fails gives back what it had taken.
use sc_control.Base.{
  ℕ, ◌≡◌, refl, sym, ◌∙◌, ap, subst, Bool, true, false, not, ◌||◌, if◌then◌else◌, List, [], ℤ,
  Option, none, some,
}
use sc_control.Errno.{Result, ok, err, Errno, enodev, einval}
use sc_control.Model.Config.{ModelConfig}
use sc_control.Model.Allowlist.{DmiEntry}
use sc_control.Firmware.State.{Firmware, State}
use sc_control.PowerMode.Access.{read_powermode}
use sc_control.Probe.{
  Resource, debugfs_dir, wmi_driver, Kernel, Driver, Step, take, register, put_state,
  legion_shared_init, legion_shared_exit, ecram_memoryio_init, ecram_memoryio_exit, ecram_init,
  ecram_exit, legion_debugfs_init, legion_debugfs_exit, legion_sysfs_init, legion_sysfs_exit,
  legion_hwmon_init, legion_hwmon_exit, legion_wmi_init, legion_platform_profile_init,
  legion_platform_profile_exit, acpi_init, eval_sta_cfg, check_chip,
}
use sc_control.Probe.Add.{
  unwind, proceed, with_powermode, chosen_model, collected, collect_data, add_wmi, add_interfaces,
  add_hardware, do_load, legion_add,
}
use sc_control.Probe.Unwind.{Below, OnErr, Restores, unwind-OnErr, protect-Restores}
use sc_control.Probe.Stages.{
  taking, memoryio-Undoes, ecram-Undoes, sysfs-Undoes, hwmon-Undoes, profile-Undoes,
}

module _ {F : Type 0} where
  if-held :
      (b : Bool) (e : Errno) (d : Driver F)
      → let p : Result (Unit {0}) × Driver F = if b then (ok tt, d) else (err e, d) in
        p.1.held ≡ d.held
  if-held true e d = refl
  if-held false e d = refl

  powermode-held : (d : Driver F) (p : Result ℤ × State F) → (with_powermode d p).held ≡ d.held
  unfolding with_powermode
  powermode-held d (ok m, s) = refl
  powermode-held d (err e, s) = refl

  put_state-held :
      {A : Type 0} (d : Driver F) (p : Result A × State F) → (put_state d p).1.held ≡ d.held
  unfolding put_state
  put_state-held d (ok a, s) = refl
  put_state-held d (err e, s) = refl

  -- The rest of the probe after a step that takes nothing.
  proceed-OnErr :
      (n : ℕ) (rest : Step F) (h : List Resource) (p : Result (Unit {0}) × Driver F)
      → Restores n rest
      → Below n h
      → p.1.held ≡ h
      → OnErr h (proceed rest p)
  unfolding proceed
  proceed-OnErr n rest h (ok _, t) r b e =
      subst (λ l. OnErr l (rest t)) e (r.restored t (subst (Below n) (sym e) b))
  proceed-OnErr n rest h (err c, t) r b e = e

  module _ (fw : Firmware F) (ro : Bool) (k : Kernel) (conf : ModelConfig) where
    acpi_init-held : (d : Driver F) → (acpi_init fw k conf d).1.held ≡ d.held
    unfolding acpi_init
    acpi_init-held d =
        let p = put_state d (eval_sta_cfg fw k conf d.state) in
        elim (k.force || not conf.acpi_check_dev)
          as (λ b.
            let q : Result (Unit {0}) × Driver F = if b then (ok tt, d) else p in
            q.1.held ≡ d.held) [
              | true ↦ refl
              | false ↦ put_state-held d (eval_sta_cfg fw k conf d.state)
            ]

    check_chip-held : (d : Driver F) → (check_chip fw k conf d).1.held ≡ d.held
    unfolding check_chip
    check_chip-held d = if-held _ _ d

    wmi-OnErr :
        (o : Option Errno) (rest : Step F) (d : Driver F)
        → ((t : Driver F) → OnErr d.held (rest t))
        → OnErr d.held (proceed rest (register wmi_driver o d))
    unfolding proceed register
    wmi-OnErr none rest d h = h (take wmi_driver d)
    wmi-OnErr (some e) rest d h = refl

    add_wmi-Restores : Restores 6 (add_wmi fw ro k conf)
    unfolding add_wmi legion_wmi_init
    add_wmi-Restores = record { restored = λ d b. wmi-OnErr k.wmi_driver_register _ d (λ t. tt) }

    add_interfaces-Restores : Restores 2 (add_interfaces fw ro k conf)
    unfolding add_interfaces legion_debugfs_init legion_debugfs_exit
    add_interfaces-Restores =
        let inner : Restores 3 _ =
          protect-Restores 3 (legion_sysfs_init k) _ legion_sysfs_exit (sysfs-Undoes k) (
            protect-Restores 4 (legion_hwmon_init k) _ legion_hwmon_exit (hwmon-Undoes k) (
              protect-Restores 5 (legion_platform_profile_init k) (add_wmi fw ro k conf)
                (legion_platform_profile_exit k) (profile-Undoes k) add_wmi-Restores)) in
        record {
          restored = λ d b.
              let taken = taking debugfs_dir d b in
              unwind-OnErr 2 legion_debugfs_exit d.held (take debugfs_dir d) _ taken.1
                (inner.restored (take debugfs_dir d) taken.0);
        }

    add_hardware-Restores : Restores 0 (add_hardware fw ro k conf)
    unfolding add_hardware
    add_hardware-Restores =
        let checked : Restores 2
            (λ t. proceed (add_interfaces fw ro k conf) (check_chip fw k conf t)) =
          record {
            restored = λ d b.
                proceed-OnErr 2 (add_interfaces fw ro k conf) d.held (check_chip fw k conf d)
                  add_interfaces-Restores b (check_chip-held d);
          } in
        let memory =
          protect-Restores 0 (ecram_memoryio_init k) _ ecram_memoryio_exit (memoryio-Undoes k)
            (protect-Restores 1 (ecram_init k) _ ecram_exit (ecram-Undoes k) checked) in
        record {
          restored =
              λ d b. proceed-OnErr 0 _ d.held (acpi_init fw k conf d) memory b (acpi_init-held d);
        }

    pub collect_data-held : (d : Driver F) → (collect_data fw ro k conf d).held ≡ d.held
    unfolding collect_data
    collect_data-held d =
        let e = collected fw ro k conf d in powermode-held e (read_powermode fw ro conf e.state)

  released :
      (d : Driver F) (p : Result (Unit {0}) × Driver F)
      → OnErr d.held p
      → (e : Errno) → (unwind legion_shared_exit p).0 ≡ err e
      → ((unwind legion_shared_exit p).1.held ≡ d.held)
        × ((unwind legion_shared_exit p).1.shared ≡ false)
  unfolding unwind legion_shared_exit
  released d (ok u, t) b e h = cc
  released d (err c, t) b e h = (b, refl)

  -- The driver after `legion_shared_init` took it.
  abbrev pub started : Driver F → Driver F
  started d = record d {
    shared = true;
    loaded = true;
    state = record d.state { fancurve_valid = false };
  }

  -- A probe of a device that is to be driven, where no driver is shared yet.
  pub loaded_run :
      (fw : Firmware F) (ro : Bool) (k : Kernel) (dmi : Option DmiEntry) (denied : Bool)
      (d : Driver F)
      → do_load k dmi denied ≡ true
      → d.shared ≡ false
      → let conf = chosen_model dmi in
        legion_add fw ro k dmi denied d
        ≡ unwind legion_shared_exit
            (add_hardware fw ro k conf (collect_data fw ro k conf (started d)))
  unfolding legion_add legion_shared_init proceed
  loaded_run fw ro k dmi denied d l s =
      let conf = chosen_model dmi in
      let run : Driver F → Result (Unit {0}) × Driver F =
        λ t. unwind legion_shared_exit (add_hardware fw ro k conf (collect_data fw ro k conf t)) in
      let rest : Step F = λ t. if do_load k dmi denied then run t else (err enodev, t) in
      ap
        (λ b.
          proceed rest (if b then (err einval, record d { loaded = true }) else (ok tt, started d)))
        s
      ∙ ap (λ b. if b then run (started d) else (err enodev, started d)) l

  -- A probe of a device that is to be driven, which starts with nothing held and no shared driver and
  -- fails, whatever the kernel and the firmware answer, leaves nothing held and no shared driver.
  pub failed_add_releases :
      (fw : Firmware F) (ro : Bool) (k : Kernel) (dmi : Option DmiEntry) (denied : Bool)
      (d : Driver F) (e : Errno)
      → do_load k dmi denied ≡ true
      → d.shared ≡ false
      → d.held ≡ []
      → (legion_add fw ro k dmi denied d).0 ≡ err e
      → ((legion_add fw ro k dmi denied d).1.held ≡ [])
        × ((legion_add fw ro k dmi denied d).1.shared ≡ false)
  failed_add_releases fw ro k dmi denied d e l s h r =
      let conf = chosen_model dmi in
      let prepared = collect_data fw ro k conf (started d) in
      let run = loaded_run fw ro k dmi denied d l s in
      let none_held : prepared.held ≡ [] = collect_data-held fw ro k conf (started d) ∙ h in
      let nothing : Below 0 prepared.held = subst (Below 0) (sym none_held) tt in
      let back =
        released prepared (add_hardware fw ro k conf prepared)
          ((add_hardware-Restores fw ro k conf).restored prepared nothing) e
          (sym (ap (λ p. p.0) run) ∙ r) in
      (ap (λ p. p.1.held) run ∙ (back.0 ∙ none_held), ap (λ p. p.1.shared) run ∙ back.1)
