-- ===== src/Probe/Stages.antt =====
-- The way back of each step of the probe that takes a resource.
use sc_control.Base.{refl, ◌∙◌, ap, Bool, true, false, if◌then◌else◌, Option, none, some, arith}
use sc_control.Errno.{Result, ok, err, Errno}
use sc_control.Probe.{
  Resource, memory_map, io_ports, sysfs_group, hwmon_device, profile_handler, index_of, HwmonAnswer,
  device, null_device, error_pointer, Kernel, Driver, take, without, release, register,
  ecram_memoryio_init, ecram_memoryio_exit, ecram_portio_init, ecram_portio_exit, ecram_init,
  ecram_exit, legion_sysfs_init, legion_sysfs_exit, legion_hwmon_init, legion_hwmon_exit,
  legion_platform_profile_init, legion_platform_profile_exit,
}
use sc_control.Probe.Unwind.{Below, Undone, Undoes, raise, without_head, without-Below}

module _ {F : Type 0} where
  pub taking :
      (r : Resource) (d : Driver F)
      → Below (index_of r) d.held
      → Undone (index_of r) (release r) d.held (ok tt, take r d)
  taking r d b = (
    (omega arith, raise (index_of r) d.held b),
    λ u e. ap (without r) e ∙ without_head r d.held b,
  )

  register-Undone :
      (r : Resource) (o : Option Errno) (d : Driver F)
      → Below (index_of r) d.held
      → Undone (index_of r) (release r) d.held (register r o d)
  unfolding register
  register-Undone r none d b = taking r d b
  register-Undone r (some e) d b = refl

  flag-Undone :
      (r : Resource) (flag : Bool) (e : Errno) (d : Driver F)
      → Below (index_of r) d.held
      → Undone (index_of r) (release r) d.held (if flag then (ok tt, take r d) else (err e, d))
  flag-Undone r true e d b = taking r d b
  flag-Undone r false e d b = refl

  hwmon-Undone :
      (a : HwmonAnswer) (d : Driver F)
      → Below 4 d.held
      → let p : Result (Unit {0}) × Driver F = elim a as (λ _. Result (Unit {0}) × Driver F) [
        | device ↦ (ok tt, take hwmon_device d)
        | null_device ↦ (ok tt, d)
        | error_pointer e ↦ (err e, d)
      ] in
        Undone 4 (release hwmon_device) d.held p
  hwmon-Undone device d b = taking hwmon_device d b
  hwmon-Undone null_device d b =
      (raise 4 d.held b, λ u e. ap (without hwmon_device) e ∙ without-Below hwmon_device d.held b)
  hwmon-Undone (error_pointer e) d b = refl

  module _ (k : Kernel) where
    pub memoryio-Undoes : Undoes {F = F} 0 (ecram_memoryio_init k) ecram_memoryio_exit
    unfolding ecram_memoryio_init ecram_memoryio_exit
    memoryio-Undoes = record { undone = flag-Undone memory_map k.ioremap _ }

    pub ecram-Undoes : Undoes {F = F} 1 (ecram_init k) ecram_exit
    unfolding ecram_init ecram_exit ecram_portio_init ecram_portio_exit
    ecram-Undoes = record { undone = flag-Undone io_ports k.request_region _ }

    pub sysfs-Undoes : Undoes {F = F} 3 (legion_sysfs_init k) legion_sysfs_exit
    unfolding legion_sysfs_init legion_sysfs_exit
    sysfs-Undoes = record { undone = register-Undone sysfs_group k.device_add_group }

    pub hwmon-Undoes : Undoes {F = F} 4 (legion_hwmon_init k) legion_hwmon_exit
    unfolding legion_hwmon_init legion_hwmon_exit
    hwmon-Undoes = record { undone = hwmon-Undone k.hwmon_device_register }

  profile_init_by :
      (enabled newer : Bool) (o : Option Errno) (d : Driver F)
      → Below 5 d.held
      → let exit : Driver F → Driver F =
          λ u. if enabled then (if newer then u else release profile_handler u) else u in
        let p : Result (Unit {0}) × Driver F =
          if enabled
          then elim o as (λ _. Result (Unit {0}) × Driver F) [
            | none ↦ (ok tt, if newer then d else take profile_handler d)
            | some e ↦ (err e, d)
          ]
          else (ok tt, d) in
        Undone 5 exit d.held p
  profile_init_by true true none d b = (raise 5 d.held b, λ u e. e)
  profile_init_by true false none d b = taking profile_handler d b
  profile_init_by true newer (some e) d b = refl
  profile_init_by false newer o d b = (raise 5 d.held b, λ u e. e)

  pub profile-Undoes :
      (k : Kernel)
      → Undoes {F = F} 5 (legion_platform_profile_init k) (legion_platform_profile_exit k)
  unfolding legion_platform_profile_init legion_platform_profile_exit
  profile-Undoes k = record {
    undone = profile_init_by k.enable_platformprofile k.since_6_14 k.platform_profile_register;
  }
