-- ===== src/FanControl/Curve/Fallback.antt =====
-- When `read_fancurve` falls back to the remembered curve, and what both operations remember.
use sc_control.Base.{◌≡◌, refl, ◌⊎◌, inl, inr, Bool, true, false, if◌then◌else◌}
use sc_control.Errno.{Result, ok, err, Errno, einval}
use sc_control.Model.Config.{ModelConfig, AccessMethod, ec, wmi3, ec2, ec3, ec4}
use sc_control.Firmware.State.{Firmware, State}
use sc_control.FanCurve.{FanCurve}
use sc_control.FanControl.Keeps.{SameDriver, wmi_write-SameDriver}
use sc_control.FanControl.Curve.{
  has_curve_method, or_cached, if_written, read_by, read_fancurve, write_by, write_fancurve,
}
use sc_control.FanControl.Curve.Cache.{read_by-SameDriver}

-- A result that is remembered, or a failure with nothing remembered before.
abbrev pub Remembered : {F : Type 0} → State F → Result FanCurve × State F → Type 0
Remembered s (r, t) =
    ((c : FanCurve) × (r ≡ ok c) × (t.fancurve ≡ c) × (t.fancurve_valid ≡ true))
    ⊎ ((e : Errno) × (r ≡ err e) × (s.fancurve_valid ≡ false))

or_cached-Remembered :
    {F : Type 0} (s : State F) (p : Result FanCurve × State F)
    → SameDriver s p.1
    → Remembered s (or_cached p)
unfolding or_cached
or_cached-Remembered s (ok c, t) k = inl (c, refl, refl, refl)
or_cached-Remembered s (err e, t) k = by_flag t.fancurve_valid refl
  where
    by_flag :
        (b : Bool) → t.fancurve_valid ≡ b → Remembered s (if b then ok t.fancurve else err e, t)
    by_flag true h = inl (t.fancurve, refl, refl, h)
    by_flag false h = inr (e, refl, cc)

-- A write that keeps the memory if it fails, and remembers its curve else.
abbrev pub WriteRemembered :
    {F : Type 0} → State F → FanCurve → Result (Unit {0}) × State F → Type 0
WriteRemembered s c (r, t) =
    ((r ≡ ok tt) × (t.fancurve ≡ c) × (t.fancurve_valid ≡ true))
    ⊎ ((e : Errno) × (r ≡ err e)
        × (t.fancurve ≡ s.fancurve)
        × (t.fancurve_valid ≡ s.fancurve_valid))

if_written-WriteRemembered :
    {F : Type 0} (s : State F) (c : FanCurve) (p : Result (Unit {0}) × State F)
    → p.1.fancurve ≡ s.fancurve
    → p.1.fancurve_valid ≡ s.fancurve_valid
    → WriteRemembered s c (if_written c p)
unfolding if_written
if_written-WriteRemembered s c (ok u, t) f g = inl (refl, refl, refl)
if_written-WriteRemembered s c (err e, t) f g = inr (e, refl, f, g)

module _ {F : Type 0} (fw : Firmware F) (ro : Bool) (conf : ModelConfig) where
  -- On a model with a fan curve, `read_fancurve` returns the curve that is remembered from then on,
  -- and it fails only where no curve was remembered before.
  pub read_fancurve_remembers :
      (before : FanCurve) (s : State F)
      → has_curve_method conf.access_method_fancurve ≡ true
      → let (r, t) = read_fancurve fw ro conf before s in
        ((c : FanCurve) × (r ≡ ok c) × (t.fancurve ≡ c) × (t.fancurve_valid ≡ true))
        ⊎ ((e : Errno) × (r ≡ err e) × (s.fancurve_valid ≡ false))
  unfolding read_fancurve
  read_fancurve_remembers before s h = by_method (has_curve_method conf.access_method_fancurve) h
    where
      by_method :
          (b : Bool)
          → b ≡ true
          → Remembered s (
              if b
              then or_cached (read_by fw ro conf conf.access_method_fancurve before s)
              else (err einval, s))
      by_method true h =
          or_cached-Remembered s _
            (read_by-SameDriver fw ro conf conf.access_method_fancurve before s)
      by_method false h = cc

  write_by-keeps :
      (m : AccessMethod) (c : FanCurve) (b : Bool) (s : State F)
      → let t = (write_by fw ro conf m c b s).1 in
        (t.fancurve ≡ s.fancurve) × (t.fancurve_valid ≡ s.fancurve_valid)
  unfolding write_by
  write_by-keeps wmi3 c b s =
      let k = wmi_write-SameDriver fw conf c s in (k.same_fancurve, k.same_valid)
  write_by-keeps ec c b s = (refl, refl)
  write_by-keeps ec2 c b s = (refl, refl)
  write_by-keeps ec3 c b s = (refl, refl)
  write_by-keeps ec4 c b s = (refl, refl)
  write_by-keeps _ c b s = (refl, refl)

  -- A successful `write_fancurve` remembers its curve; a failed one leaves what was remembered.
  pub write_fancurve_remembers :
      (c : FanCurve) (b : Bool) (s : State F)
      → let (r, t) = write_fancurve fw ro conf c b s in
        ((r ≡ ok tt) × (t.fancurve ≡ c) × (t.fancurve_valid ≡ true))
        ⊎ ((e : Errno) × (r ≡ err e)
            × (t.fancurve ≡ s.fancurve)
            × (t.fancurve_valid ≡ s.fancurve_valid))
  unfolding write_fancurve
  write_fancurve_remembers c b s = by_method (has_curve_method conf.access_method_fancurve)
    where
      by_method :
          (m : Bool)
          → WriteRemembered s c (
              if m
              then if_written c (write_by fw ro conf conf.access_method_fancurve c b s)
              else (err einval, s))
      by_method true =
          let k = write_by-keeps conf.access_method_fancurve c b s in
          if_written-WriteRemembered s c _ k.0 k.1
      by_method false = inr (einval, refl, refl, refl)
