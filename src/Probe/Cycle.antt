-- ===== src/Probe/Cycle.antt =====
-- Adding and removing, and what a refused probe leaves.
use sc_control.Base.{
  ◌≡◌, refl, sym, ◌∙◌, ap, subst, Bool, true, false, if◌then◌else◌, List, [], ◌∷◌, Option, All,
}
use sc_control.Errno.{Result, ok, err, enodev, einval}
use sc_control.Model.Allowlist.{DmiEntry}
use sc_control.Firmware.State.{Firmware}
use sc_control.Probe.{Kernel, Driver, Step, legion_shared_init, legion_shared_exit}
use sc_control.Probe.Add.{
  unwind, proceed, chosen_model, collect_data, add_hardware, do_load, legion_add,
}
use sc_control.Probe.Release.{started, loaded_run, collect_data-held}
use sc_control.Probe.Remove.{Own, legion_remove, remove_releases}
use sc_control.Probe.Success.{OwnAfter}
use sc_control.Probe.Owned.{hardware-Admits}

module _ {F : Type 0} where
  unwound_owned :
      (k : Kernel) (p : Result (Unit {0}) × Driver F)
      → OwnAfter k p
      → (unwind legion_shared_exit p).0 ≡ ok tt
      → All (Own k) (unwind legion_shared_exit p).1.held
  unfolding unwind
  unwound_owned k (ok _, d) h e = h
  unwound_owned k (err c, d) h e = cc

  -- A probe that starts with nothing held and no shared driver and succeeds, followed by the removal of
  -- the driver by the same kernel, leaves nothing held, no shared driver and `loaded` false.
  pub add_remove :
      (fw : Firmware F) (ro : Bool) (k : Kernel) (dmi : Option DmiEntry) (denied : Bool)
      (d : Driver F)
      → do_load k dmi denied ≡ true
      → d.shared ≡ false
      → d.held ≡ []
      → (legion_add fw ro k dmi denied d).0 ≡ ok tt
      → let t = legion_remove fw ro k (chosen_model dmi) (legion_add fw ro k dmi denied d).1 in
        (t.held ≡ []) × (t.shared ≡ false) × (t.loaded ≡ false)
  add_remove fw ro k dmi denied d l s h r =
      let conf = chosen_model dmi in
      let prepared = collect_data fw ro k conf (started d) in
      let run = loaded_run fw ro k dmi denied d l s in
      let none_held : prepared.held ≡ [] = collect_data-held fw ro k conf (started d) ∙ h in
      let p = add_hardware fw ro k conf prepared in
      let own =
        unwound_owned k p
          ((hardware-Admits fw ro k conf).admitted prepared
            (subst (All (Own k)) (sym none_held) tt))
          (sym (ap (λ q. q.0) run) ∙ r) in
      remove_releases fw ro k conf (legion_add fw ro k dmi denied d).1
        (subst (λ q. All (Own k) q.1.held) (sym run) own)

  refused_run :
      (fw : Firmware F) (ro : Bool) (k : Kernel) (dmi : Option DmiEntry) (denied : Bool)
      (d : Driver F)
      → do_load k dmi denied ≡ false
      → d.shared ≡ false
      → legion_add fw ro k dmi denied d ≡ (err enodev, started d)
  unfolding legion_add legion_shared_init proceed
  refused_run fw ro k dmi denied d l s =
      let conf = chosen_model dmi in
      let run : Driver F → Result (Unit {0}) × Driver F =
        λ t. unwind legion_shared_exit (add_hardware fw ro k conf (collect_data fw ro k conf t)) in
      let rest : Step F = λ t. if do_load k dmi denied then run t else (err enodev, t) in
      ap
        (λ b.
          proceed rest (if b then (err einval, record d { loaded = true }) else (ok tt, started d)))
        s
      ∙ ap (λ b. if b then run (started d) else (err enodev, started d)) l

  -- A probe while a driver is shared: only `loaded` is set.
  shared_run :
      (fw : Firmware F) (ro : Bool) (k : Kernel) (dmi : Option DmiEntry) (denied : Bool)
      (d : Driver F)
      → d.shared ≡ true
      → legion_add fw ro k dmi denied d ≡ (err einval, record d { loaded = true })
  unfolding legion_add legion_shared_init proceed
  shared_run fw ro k dmi denied d s = rw (s, legion_shared_init, proceed) refl

  -- The driver after a sequence of probes, each by a kernel, of a matching entry and a denylist's answer.
  unfoldable pub after_probes :
      Firmware F → Bool → List (Kernel × (Option DmiEntry × Bool)) → Driver F → Driver F
  after_probes fw ro [] d = d
  after_probes fw ro ((k, (dmi, denied)) ∷ later) d =
      after_probes fw ro later (legion_add fw ro k dmi denied d).1

  after_probes-shared :
      (fw : Firmware F) (ro : Bool) (later : List (Kernel × (Option DmiEntry × Bool)))
      (d : Driver F)
      → d.shared ≡ true
      → (after_probes fw ro later d).shared ≡ true
  unfolding after_probes
  after_probes-shared fw ro [] d s = s
  after_probes-shared fw ro ((k, (dmi, denied)) ∷ later) d s =
      after_probes-shared fw ro later (legion_add fw ro k dmi denied d).1
        (ap (λ p. p.1.shared) (shared_run fw ro k dmi denied d s) ∙ s)

  -- A probe that is refused because the device is not to be driven blocks every later probe, also one
  -- of a device that is to be driven: after it and any sequence of further probes the driver is still
  -- shared, and the next probe fails with einval.
  pub refused_add_blocks :
      (fw : Firmware F) (ro : Bool) (k k' : Kernel) (dmi dmi' : Option DmiEntry)
      (denied denied' : Bool) (later : List (Kernel × (Option DmiEntry × Bool))) (d : Driver F)
      → do_load k dmi denied ≡ false
      → d.shared ≡ false
      → let (r, refused) = legion_add fw ro k dmi denied d in
        let t = after_probes fw ro later refused in
        (r ≡ err enodev) × (t.shared ≡ true) × ((legion_add fw ro k' dmi' denied' t).0 ≡ err einval)
  refused_add_blocks fw ro k k' dmi dmi' denied denied' later d l s =
      let refused = (legion_add fw ro k dmi denied d).1 in
      let run = refused_run fw ro k dmi denied d l s in
      let stays = after_probes-shared fw ro later refused (ap (λ q. q.1.shared) run) in
      (
        ap (λ q. q.0) run,
        stays,
        ap (λ q. q.0) (shared_run fw ro k' dmi' denied' (after_probes fw ro later refused) stays),
      )
