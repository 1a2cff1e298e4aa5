-- ===== src/FanControl/Autopoint/Laws.antt =====
-- What a store to a point of the fan curve guarantees, accepted or rejected.
use sc_control.Base.{
  ℕ, ◌<◌, ◌≡◌, refl, Bool, true, false, not, ◌&&◌, ltb, if◌then◌else◌, ℤ, Option, none, some,
}
use sc_control.Errno.{Result, ok, err, OnOk}
use sc_control.Model.Config.{ModelConfig}
use sc_control.Firmware.State.{Firmware, State, M}
use sc_control.FanCurve.{FanCurve, IsCurve, IsMemory}
use sc_control.FanCurve.Bounds.{
  set_speed_pwm-IsCurve, set_cpu_temp_max-IsCurve, set_cpu_temp_min-IsCurve,
  set_gpu_temp_max-IsCurve, set_gpu_temp_min-IsCurve, set_ic_temp_max-IsCurve,
  set_ic_temp_min-IsCurve, set_accel-IsCurve, set_decel-IsCurve, set_size-IsCurve,
}
use sc_control.FanControl.Switches.{fan_control_write_allowed}
use sc_control.FanControl.FullSpeed.{when_ok}
use sc_control.FanControl.Curve.{read_fancurve}
use sc_control.FanControl.Curve.Cache.{IsState, read_fancurve-IsState, write_fancurve-IsState}
use sc_control.FanControl.Autopoint.{
  FanCurveAttr, attr_pwm1, attr_pwm2, attr_cpu_temp, attr_cpu_hyst, attr_gpu_temp, attr_gpu_hyst,
  attr_ic_temp, attr_ic_hyst, attr_accel, attr_decel, attr_size, attr_minifancurve_on_cool, is_pwm1,
  is_size, set_attr, after_read, or_unsupported, write_edited, store_value, autopoint_show,
  autopoint_store,
}

-- The curve of an edit is well formed.
abbrev EditIsCurve : Option (FanCurve × Bool) → Type 0
EditIsCurve none = Unit {0}
EditIsCurve (some (c, b)) = IsCurve c

-- Every setter keeps the curve well formed, for any index and any value.
pub set_attr-IsCurve :
    (attr : FanCurveAttr) {c : FanCurve} (i : ℕ) (v : ℤ)
    → IsCurve c
    → EditIsCurve (set_attr attr c i v)
unfolding set_attr
set_attr-IsCurve attr_pwm1 i v w = set_speed_pwm-IsCurve i 0 v w
set_attr-IsCurve attr_pwm2 i v w = set_speed_pwm-IsCurve i 1 v w
set_attr-IsCurve attr_cpu_temp i v w = set_cpu_temp_max-IsCurve i v w
set_attr-IsCurve attr_cpu_hyst i v w = set_cpu_temp_min-IsCurve i v w
set_attr-IsCurve attr_gpu_temp i v w = set_gpu_temp_max-IsCurve i v w
set_attr-IsCurve attr_gpu_hyst i v w = set_gpu_temp_min-IsCurve i v w
set_attr-IsCurve attr_ic_temp i v w = set_ic_temp_max-IsCurve i v w
set_attr-IsCurve attr_ic_hyst i v w = set_ic_temp_min-IsCurve i v w
set_attr-IsCurve attr_accel i v w = set_accel-IsCurve i v w
set_attr-IsCurve attr_decel i v w = set_decel-IsCurve i v w
set_attr-IsCurve attr_size i v w = set_size-IsCurve v true w
set_attr-IsCurve attr_minifancurve_on_cool i v w = tt

or_unsupported-state : {F : Type 0} (p : Result (Unit {0}) × State F) → (or_unsupported p).1 ≡ p.1
unfolding or_unsupported
or_unsupported-state (ok u, s) = refl
or_unsupported-state (err e, s) = refl

write_edited-IsState :
    {F : Type 0} (write : FanCurve → M F (Unit {0})) (o : Option (FanCurve × Bool)) (s : State F)
    → ((c : FanCurve) → IsCurve c → IsState (write c s).1)
    → EditIsCurve o
    → IsState s
    → IsState (write_edited write o s).1
unfolding write_edited
write_edited-IsState write none s k w v = v
write_edited-IsState write (some (c, true)) s k w v = rw (or_unsupported-state (write c s)) (k c w)
write_edited-IsState write (some (c, false)) s k w v = v

after_read-IsState :
    {F A : Type 0} (act : FanCurve → M F A) (p : Result FanCurve × State F)
    → ((c : FanCurve) (t : State F) → IsCurve c → IsState t → IsState (act c t).1)
    → OnOk IsCurve p.0
    → IsState p.1
    → IsState (after_read act p).1
unfolding after_read
after_read-IsState act (ok c, s) k w v = k c s w v
after_read-IsState act (err e, s) k w v = v

when_ok-IsState :
    {F A : Type 0} (act : M F A) (p : Result (Unit {0}) × State F)
    → ((t : State F) → IsState t → IsState (act t).1)
    → IsState p.1
    → IsState (when_ok act p).1
unfolding when_ok
when_ok-IsState act (ok u, s) k v = k s v
when_ok-IsState act (err e, s) k v = v

if-IsState :
    {F A : Type 0} (b : Bool) (p q : Result A × State F)
    → IsState p.1
    → IsState q.1
    → IsState (if b then p else q).1
if-IsState true p q v w = v
if-IsState false p q v w = w

module _ {F : Type 0} (fw : Firmware F) (ro : Bool) (conf : ModelConfig) where
  module _ (before : FanCurve) (attr : FanCurveAttr) (i : ℕ) where
    store_value-IsState :
        (value : ℤ) (s : State F)
        → conf.fan_max_rpm < 65536
        → IsMemory before
        → IsState s
        → IsState (store_value fw ro conf before attr i value s).1
    unfolding store_value
    store_value-IsState value s l w v =
        when_ok-IsState _ (fan_control_write_allowed s.ram conf, s)
          (λ t u.
            let (kept, curve) = read_fancurve-IsState fw ro conf before t l w u in
            after_read-IsState _ (read_fancurve fw ro conf before t)
              (λ c t' w' v'.
                write_edited-IsState _ (set_attr attr c i value) t'
                  (λ d x. write_fancurve-IsState fw ro conf d (is_size attr) t' x v')
                  (set_attr-IsCurve attr i value w') v')
              curve kept)
          v

    -- From a well-formed state and any local structure, a store of any text to any attribute and point
    -- leaves a well-formed state, whatever the firmware answers.
    pub autopoint_store-IsState :
        (parsed : Result ℤ) (s : State F)
        → conf.fan_max_rpm < 65536
        → IsMemory before
        → IsState s
        → IsState (autopoint_store fw ro conf before attr i parsed s).1
    unfolding autopoint_store
    autopoint_store-IsState (err e) s l w v =
        if-IsState (conf.wmi_fancurve_speed_only && not (is_pwm1 attr)) _ _ v
          (if-IsState (ltb i 10) _ _ v v)
    autopoint_store-IsState (ok value) s l w v =
        if-IsState (conf.wmi_fancurve_speed_only && not (is_pwm1 attr)) _ _ v
          (if-IsState (ltb i 10) _ _ (store_value-IsState value s l w v) v)

    pub autopoint_show-IsState :
        (s : State F)
        → conf.fan_max_rpm < 65536
        → IsMemory before
        → IsState s
        → IsState (autopoint_show fw ro conf before attr i s).1
    unfolding autopoint_show
    autopoint_show-IsState s l w v =
        let (kept, curve) = read_fancurve-IsState fw ro conf before s l w v in
        after_read-IsState _ (read_fancurve fw ro conf before s) (λ c t w' v'. v') curve kept
