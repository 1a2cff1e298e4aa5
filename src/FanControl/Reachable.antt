-- ===== src/FanControl/Reachable.antt =====
-- The driver as a step relation: the sysfs operations on the fan curve, in any order and with any
-- arguments, between changes of the EC RAM by the controller and of the firmware's own state.
use sc_control.Base.{ℕ, ◌<◌, ℤ, Bool}
use sc_control.Errno.{Result}
use sc_control.Ec.{Ram}
use sc_control.Ec.Bytes.{IsRam}
use sc_control.Model.Config.{ModelConfig}
use sc_control.Firmware.State.{Firmware, State}
use sc_control.FanCurve.{FanCurve, IsMemory}
use sc_control.FanControl.Curve.Cache.{IsState}
use sc_control.FanControl.Autopoint.{FanCurveAttr, autopoint_show, autopoint_store}
use sc_control.FanControl.Autopoint.Laws.{autopoint_show-IsState, autopoint_store-IsState}

module _ {F : Type 0} (fw : Firmware F) (ro : Bool) (conf : ModelConfig) where
  -- A step: of the local structure of a call only what its type says is known.
  pub data Step : State F → State F → Type 0 where
    show :
        (before : FanCurve) (attr : FanCurveAttr) (i : ℕ) (s : State F)
        → IsMemory before
        → Step s (autopoint_show fw ro conf before attr i s).1
    store :
        (before : FanCurve) (attr : FanCurveAttr) (i : ℕ) (parsed : Result ℤ) (s : State F)
        → IsMemory before
        → Step s (autopoint_store fw ro conf before attr i parsed s).1
    controller : (ram : Ram) (s : State F) → IsRam ram → Step s (record s { ram = ram })
    firmware_change : (f : F) (s : State F) → Step s (record s { firmware = f })

  pub data Reachable : State F → State F → Type 0 where
    start : (s : State F) → Reachable s s
    next : {s t u : State F} → Reachable s t → Step t u → Reachable s u

  Step-IsState : {s t : State F} → conf.fan_max_rpm < 65536 → Step s t → IsState s → IsState t
  Step-IsState l (show before attr i s w) v =
      autopoint_show-IsState fw ro conf before attr i s l w v
  Step-IsState l (store before attr i parsed s w) v =
      autopoint_store-IsState fw ro conf before attr i parsed s l w v
  Step-IsState l (controller ram s h) v = record { ram_bytes = h; cached = v.cached }
  Step-IsState l (firmware_change f s) v = record { ram_bytes = v.ram_bytes; cached = v.cached }

  -- In every state that is reached from a well-formed one, the RAM holds bytes and the curve that is
  -- remembered, if any, is well formed: its ten points hold bytes and its size is at most 10.
  pub Reachable-IsState :
      {s t : State F} → conf.fan_max_rpm < 65536 → IsState s → Reachable s t → IsState t
  Reachable-IsState l v (start s) = v
  Reachable-IsState l v (next r step) = Step-IsState l step (Reachable-IsState l v r)
