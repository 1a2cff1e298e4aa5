-- ===== src/Probe/Success.antt =====
-- A probe that succeeds holds only resources that the removal gives back.
use sc_control.Base.{◌≡◌, refl, Bool, true, false, not, if◌then◌else◌, Option, none, some, All}
use sc_control.Errno.{Result, ok, err, Errno}
use sc_control.Firmware.State.{State}
use sc_control.Probe.{
  Resource, hwmon_device, profile_handler, HwmonAnswer, device, null_device, error_pointer, Kernel,
  Driver, Step, take, register, put_state,
}
use sc_control.Probe.Leds.{then_register}
use sc_control.Probe.Add.{unwind, proceed, protect}
use sc_control.Probe.Remove.{Own}

-- After a success only own resources are held.
abbrev pub OwnAfter : {F : Type 0} → Kernel → Result (Unit {0}) × Driver F → Type 0
OwnAfter k (ok _, d) = All (Own k) d.held
OwnAfter k (err _, d) = Unit

pub record Admits {F : Type 0} (k : Kernel) (step : Step F) : Type 0 where
  pub admitted : (d : Driver F) → All (Own k) d.held → OwnAfter k (step d)

module _ {F : Type 0} (k : Kernel) where
  pub unwind-Own :
      (undo : Driver F → Driver F) (p : Result (Unit {0}) × Driver F)
      → OwnAfter k p
      → OwnAfter k (unwind undo p)
  unfolding unwind
  unwind-Own undo (ok _, d) h = h
  unwind-Own undo (err e, d) h = tt

  pub proceed-Own :
      (rest : Step F) (p : Result (Unit {0}) × Driver F)
      → Admits k rest
      → OwnAfter k p
      → OwnAfter k (proceed rest p)
  unfolding proceed
  proceed-Own rest (ok _, d) r h = r.admitted d h
  proceed-Own rest (err e, d) r h = tt

  pub protect-Admits :
      (init rest : Step F) (undo : Driver F → Driver F)
      → Admits k init
      → Admits k rest
      → Admits k (protect init undo rest)
  protect-Admits init rest undo i r = record {
    admitted = λ d h.
        proceed-Own (λ t. unwind undo (rest t)) (init d)
          (record { admitted = λ t b. unwind-Own undo (rest t) (r.admitted t b) }) (i.admitted d h);
  }

  pub register-Own :
      (r : Resource) (o : Option Errno) (d : Driver F)
      → Own k r
      → All (Own k) d.held
      → OwnAfter k (register r o d)
  unfolding register
  register-Own r none d w h = (w, h)
  register-Own r (some e) d w h = tt

  pub flag-Own :
      (r : Resource) (b : Bool) (e : Errno) (d : Driver F)
      → Own k r
      → All (Own k) d.held
      → OwnAfter k (if b then (ok tt, take r d) else (err e, d))
  flag-Own r true e d w h = (w, h)
  flag-Own r false e d w h = tt

  pub check-Own :
      (b : Bool) (e : Errno) (d : Driver F)
      → All (Own k) d.held
      → OwnAfter k (if b then (ok tt, d) else (err e, d))
  check-Own true e d h = h
  check-Own false e d h = tt

  pub put_state-Own :
      {A : Type 0} (d : Driver F) (p : Result A × State F)
      → All (Own k) d.held
      → OwnAfter k (put_state d p)
  unfolding put_state
  put_state-Own d (ok a, s) h = h
  put_state-Own d (err e, s) h = tt

  pub hwmon-Own :
      (a : HwmonAnswer) (d : Driver F)
      → All (Own k) d.held
      → let p : Result (Unit {0}) × Driver F = elim a as (λ _. Result (Unit {0}) × Driver F) [
        | device ↦ (ok tt, take hwmon_device d)
        | null_device ↦ (ok tt, d)
        | error_pointer e ↦ (err e, d)
      ] in
        OwnAfter k p
  hwmon-Own device d h = (tt, h)
  hwmon-Own null_device d h = h
  hwmon-Own (error_pointer e) d h = tt

  pub profile-Own :
      (enabled newer : Bool) (o : Option Errno) (d : Driver F)
      → ((if enabled then not newer else false) ≡ true → Own k profile_handler)
      → All (Own k) d.held
      → let p : Result (Unit {0}) × Driver F =
          if enabled
          then elim o as (λ _. Result (Unit {0}) × Driver F) [
            | none ↦ (ok tt, if newer then d else take profile_handler d)
            | some e ↦ (err e, d)
          ]
          else (ok tt, d) in
        OwnAfter k p
  profile-Own true true none d w h = h
  profile-Own true false none d w h = (w refl, h)
  profile-Own true newer (some e) d w h = tt
  profile-Own false newer o d w h = h

  registered :
      (r : Resource) (o : Option Errno) (d : Driver F)
      → Own k r
      → All (Own k) d.held
      → All (Own k) (register r o d).1.held
  unfolding register
  registered r none d w h = (w, h)
  registered r (some e) d w h = h

  pub put_state-All :
      {A : Type 0} (d : Driver F) (p : Result A × State F)
      → All (Own k) d.held
      → All (Own k) (put_state d p).1.held
  unfolding put_state
  put_state-All d (ok a, s) h = h
  put_state-All d (err e, s) h = h

  -- The lights, whose results are dropped.
  pub light-held :
      (r : Resource) (p : Result (Unit {0}) × Driver F)
      → Own k r
      → All (Own k) p.1.held
      → All (Own k) (then_register k r p).1.held
  unfolding then_register
  light-held r (ok _, d) w h = registered r (k.led_classdev_register r) d w h
  light-held r (err e, d) w h = h
