-- ===== src/FanControl/Autopoint/Success.antt =====
-- What a successful store to a point of the fan curve has checked and done, and a failed one not.
use sc_control.Base.{
  ℕ, ◌≡◌, refl, ap, ◌∙◌, inl, inr, Bool, true, false, not, ◌&&◌, ltb, if◌then◌else◌, ℤ, Option,
  none, some,
}
use sc_control.Errno.{Result, ok, err, Errno}
use sc_control.Model.Config.{ModelConfig}
use sc_control.Firmware.State.{Firmware, State, M}
use sc_control.FanCurve.{FanCurve}
use sc_control.FanControl.Switches.{fan_control_write_allowed}
use sc_control.FanControl.FullSpeed.{when_ok, when_ok_ok}
use sc_control.FanControl.Curve.{read_fancurve, write_fancurve}
use sc_control.FanControl.Curve.Fallback.{write_fancurve_remembers}
use sc_control.FanControl.Autopoint.{
  FanCurveAttr, is_pwm1, is_size, set_attr, after_read, or_unsupported, write_edited, store_value,
  autopoint_store,
}

after_read_lem :
    {F A : Type 0} (act : FanCurve → M F A) (p : Result FanCurve × State F) (a : A)
    → (after_read act p).0 ≡ ok a
    → (c : FanCurve) × (p.0 ≡ ok c) × (after_read act p ≡ act c p.1)
unfolding after_read
after_read_lem act (ok c, s) a h = (c, refl, refl)
after_read_lem act (err e, s) a h = cc

when_ok_lem :
    {F A : Type 0} (act : M F A) (p : Result (Unit {0}) × State F) (a : A)
    → (when_ok act p).0 ≡ ok a
    → when_ok act p ≡ act p.1
unfolding when_ok
when_ok_lem act (ok u, s) a h = refl
when_ok_lem act (err e, s) a h = cc

or_unsupported_lem :
    {F : Type 0} (p : Result (Unit {0}) × State F)
    → (or_unsupported p).0 ≡ ok tt
    → or_unsupported p ≡ p
unfolding or_unsupported
or_unsupported_lem (ok u, s) h = refl
or_unsupported_lem (err e, s) h = cc

write_edited_lem :
    {F : Type 0} (write : FanCurve → M F (Unit {0})) (o : Option (FanCurve × Bool)) (s : State F)
    → (write_edited write o s).0 ≡ ok tt
    → (d : FanCurve) × (o ≡ some (d, true)) × (write_edited write o s ≡ write d s)
unfolding write_edited
write_edited_lem write none s h = cc
write_edited_lem write (some (d, true)) s h = (d, refl, or_unsupported_lem (write d s) h)
write_edited_lem write (some (d, false)) s h = cc

if_ok :
    {F A : Type 0} (b : Bool) (p : Result A × State F) (e : Errno) (s : State F) (a : A)
    → (if b then p else (err e, s)).0 ≡ ok a
    → (b ≡ true) × ((if b then p else (err e, s)) ≡ p)
if_ok true p e s a h = (refl, refl)
if_ok false p e s a h = cc

if_err :
    {F A : Type 0} (b : Bool) (p : Result A × State F) (e : Errno) (s : State F) (a : A)
    → (if b then (err e, s) else p).0 ≡ ok a
    → (b ≡ false) × ((if b then (err e, s) else p) ≡ p)
if_err false p e s a h = (refl, refl)
if_err true p e s a h = cc

module _ {F : Type 0} (fw : Firmware F) (ro : Bool) (conf : ModelConfig) where
  written_is_remembered :
      (d : FanCurve) (b : Bool) (s : State F)
      → (write_fancurve fw ro conf d b s).0 ≡ ok tt
      → (write_fancurve fw ro conf d b s).1.fancurve ≡ d
  written_is_remembered d b s h = elim (write_fancurve_remembers fw ro conf d b s) [
    | inl k ↦ k.1
    | inr k ↦ cc
  ]

  module _ (before : FanCurve) (attr : FanCurveAttr) (i : ℕ) where
    -- What a successful store of `value` has done, from `s` to `t`.
    abbrev pub Edited : ℤ → State F → State F → Type 0
    Edited value s t =
        (fan_control_write_allowed s.ram conf ≡ ok tt)
        × ((c : FanCurve) × (d : FanCurve) × ((read_fancurve fw ro conf before s).0 ≡ ok c)
            × (set_attr attr c i value ≡ some (d, true))
            × (t
                ≡ (write_fancurve fw ro conf d (is_size attr)
                    (read_fancurve fw ro conf before s).1).1)
            × (t.fancurve ≡ d))

    store_value_lem :
        (value : ℤ) (s : State F)
        → (store_value fw ro conf before attr i value s).0 ≡ ok tt
        → Edited value s (store_value fw ro conf before attr i value s).1
    unfolding store_value
    store_value_lem value s h =
        let unlocked = fan_control_write_allowed s.ram conf in
        let edit : FanCurve → M F (Unit {0}) = λ c.
          write_edited (λ d. write_fancurve fw ro conf d (is_size attr))
            (set_attr attr c i value) in
        let act : M F (Unit {0}) = λ t. after_read edit (read_fancurve fw ro conf before t) in
        let u = when_ok_ok act (unlocked, s) tt h in
        let e = when_ok_lem act (unlocked, s) tt h in
        let h1 : (act s).0 ≡ ok tt = rw e at h in
        let (c, q, e2) = after_read_lem edit (read_fancurve fw ro conf before s) tt h1 in
        let after : State F = (read_fancurve fw ro conf before s).1 in
        let h2 : (edit c after).0 ≡ ok tt = rw e2 at h1 in
        let (d, r, e3) =
          write_edited_lem (λ d. write_fancurve fw ro conf d (is_size attr))
            (set_attr attr c i value) after h2 in
        let h3 : (write_fancurve fw ro conf d (is_size attr) after).0 ≡ ok tt = rw e3 at h2 in
        let final = ap (λ p. p.1) (e ∙ (e2 ∙ e3)) in
        let kept = ap (λ t. t.fancurve) final ∙ written_is_remembered d (is_size attr) after h3 in
        (u, (c, d, q, r, final, kept))

    -- A successful store passed the guard of speed-only models and the range test of the point, its
    -- text parsed as an int, the fan controller allowed the write, a setter accepted the int for the
    -- curve that was read, and the curve that the setter made was written and is remembered.
    pub autopoint_store_success :
        (parsed : Result ℤ) (s : State F)
        → (autopoint_store fw ro conf before attr i parsed s).0 ≡ ok tt
        → ((conf.wmi_fancurve_speed_only && not (is_pwm1 attr)) ≡ false)
          × (ltb i 10 ≡ true)
          × ((value : ℤ) × (parsed ≡ ok value)
              × Edited value s (autopoint_store fw ro conf before attr i parsed s).1)
    unfolding autopoint_store
    autopoint_store_success (err c) s h =
        let (_, e) = if_err (conf.wmi_fancurve_speed_only && not (is_pwm1 attr)) _ _ _ tt h in
        let h1 = rw e at h in
        let (_, e1) = if_ok (ltb i 10) _ _ _ tt h1 in let h2 = rw e1 at h1 in cc
    autopoint_store_success (ok value) s h =
        let (g, e) = if_err (conf.wmi_fancurve_speed_only && not (is_pwm1 attr)) _ _ _ tt h in
        let h1 = rw e at h in
        let (l, e1) = if_ok (ltb i 10) _ _ _ tt h1 in
        let h2 = rw e1 at h1 in (g, l, (value, refl, rw (e ∙ e1) (store_value_lem value s h2)))
