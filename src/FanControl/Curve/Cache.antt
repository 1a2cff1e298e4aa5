-- ===== src/FanControl/Curve/Cache.antt =====
-- The cache of `read_fancurve` and `write_fancurve`, and that both keep the state well formed.
use sc_control.Base.{◌<◌, ◌≡◌, refl, Bool, true, false, if◌then◌else◌}
use sc_control.Errno.{Result, ok, err, einval, OnOk}
use sc_control.Ec.Bytes.{IsRam}
use sc_control.Model.Config.{ModelConfig, AccessMethod, ec, wmi3, ec2, ec3, ec4}
use sc_control.Firmware.State.{Firmware, State}
use sc_control.FanCurve.{FanCurve, IsCurve, IsMemory}
use sc_control.FanCurve.Layout.Bounds.{
  read_legion-IsCurve, read_ideapad-IsCurve, read_loq-IsCurve, read_legion2024-IsCurve,
  write_legion-IsRam, write_ideapad-IsRam, write_loq-IsRam, write_legion2024-IsRam,
}
use sc_control.FanControl.WmiTable.Laws.{wmi_read-IsTableCurve}
use sc_control.FanControl.Keeps.{
  SameDriver, SameDriver-refl, wmi_read-SameDriver, wmi_write-SameDriver,
}
use sc_control.FanControl.Curve.{
  has_curve_method, remember_curve, or_cached, if_written, read_by, read_fancurve, write_by,
  write_fancurve,
}

-- The RAM is one of bytes, and a remembered curve is well formed.
pub record IsState {F : Type 0} (s : State F) : Type 0 where
  pub ram_bytes : IsRam s.ram
  pub cached : s.fancurve_valid ≡ true → IsCurve s.fancurve

pub SameDriver-IsState : {F : Type 0} {s t : State F} → SameDriver s t → IsState s → IsState t
SameDriver-IsState p v = record {
  ram_bytes = rw p.same_ram v.ram_bytes;
  cached = λ h. rw p.same_fancurve (v.cached (rw p.same_valid at h));
}

remember-IsState :
    {F : Type 0} {s : State F} (c : FanCurve) → IsCurve c → IsState s → IsState (remember_curve c s)
remember-IsState c w v = record { ram_bytes = v.ram_bytes; cached = λ _. w }

or_cached-IsState :
    {F : Type 0} (p : Result FanCurve × State F)
    → OnOk IsCurve p.0
    → IsState p.1
    → IsState (or_cached p).1 × OnOk IsCurve (or_cached p).0
unfolding or_cached
or_cached-IsState (ok c, s) w v = (remember-IsState c w v, w)
or_cached-IsState (err e, s) w v = (v, from s.fancurve_valid refl)
  where
    from : (b : Bool) → s.fancurve_valid ≡ b → OnOk IsCurve (if b then ok s.fancurve else err e)
    from true h = v.cached h
    from false h = tt

if_written-IsState :
    {F : Type 0} (c : FanCurve) (p : Result (Unit {0}) × State F)
    → IsCurve c
    → IsState p.1
    → IsState (if_written c p).1
unfolding if_written
if_written-IsState c (ok u, s) w v = remember-IsState c w v
if_written-IsState c (err e, s) w v = v

each-OnOk : {A : Type 0} (P : A → Type 0) (r : Result A) → ((a : A) → r ≡ ok a → P a) → OnOk P r
each-OnOk P (ok a) h = h a refl
each-OnOk P (err e) h = tt

if-IsState :
    {F : Type 0} (b : Bool) (p q : Result FanCurve × State F)
    → IsState p.1 × OnOk IsCurve p.0
    → IsState q.1 × OnOk IsCurve q.0
    → let r = if b then p else q in IsState r.1 × OnOk IsCurve r.0
if-IsState true p q v w = v
if-IsState false p q v w = w

guarded-IsState :
    {F : Type 0} (b : Bool) (p : Result (Unit {0}) × State F) (s : State F)
    → IsState p.1
    → IsState s
    → let r : Result (Unit {0}) × State F = if b then p else (err einval, s) in IsState r.1
guarded-IsState true p s v w = v
guarded-IsState false p s v w = w

module _ {F : Type 0} (fw : Firmware F) (ro : Bool) (conf : ModelConfig) where
  pub read_by-SameDriver :
      (m : AccessMethod) (before : FanCurve) (s : State F)
      → SameDriver s (read_by fw ro conf m before s).1
  unfolding read_by
  read_by-SameDriver ec before s = SameDriver-refl s
  read_by-SameDriver ec2 before s = SameDriver-refl s
  read_by-SameDriver ec3 before s = SameDriver-refl s
  read_by-SameDriver ec4 before s = SameDriver-refl s
  read_by-SameDriver wmi3 before s = wmi_read-SameDriver fw conf s
  read_by-SameDriver _ before s = SameDriver-refl s

  read_by-IsCurve :
      (m : AccessMethod) (before : FanCurve) (s : State F)
      → conf.fan_max_rpm < 65536
      → IsMemory before
      → IsState s
      → OnOk IsCurve (read_by fw ro conf m before s).0
  unfolding read_by
  read_by-IsCurve ec before s l w v = read_legion-IsCurve v.ram_bytes conf.registers w
  read_by-IsCurve ec2 before s l w v = read_ideapad-IsCurve v.ram_bytes conf.registers w
  read_by-IsCurve ec3 before s l w v = read_loq-IsCurve v.ram_bytes conf l
  read_by-IsCurve ec4 before s l w v = read_legion2024-IsCurve v.ram_bytes w
  read_by-IsCurve wmi3 before s l w v =
      each-OnOk IsCurve _ λ c h. (wmi_read-IsTableCurve fw conf s c h).0
  read_by-IsCurve _ before s l w v = tt

  -- From a well-formed state and any structure, `read_fancurve` leaves a well-formed state, and a curve
  -- that it returns is well formed.
  pub read_fancurve-IsState :
      (before : FanCurve) (s : State F)
      → conf.fan_max_rpm < 65536
      → IsMemory before
      → IsState s
      → IsState (read_fancurve fw ro conf before s).1
        × OnOk IsCurve (read_fancurve fw ro conf before s).0
  unfolding read_fancurve
  read_fancurve-IsState before s l w v =
      let m = conf.access_method_fancurve in
      let kept = SameDriver-IsState (read_by-SameDriver m before s) v in
      if-IsState (has_curve_method m) (or_cached (read_by fw ro conf m before s)) (err einval, s)
        (or_cached-IsState _ (read_by-IsCurve m before s l w v) kept) (v, tt)

  pub ram-IsState :
      {s t : State F}
      → IsRam t.ram
      → t.fancurve ≡ s.fancurve
      → t.fancurve_valid ≡ s.fancurve_valid
      → IsState s
      → IsState t
  ram-IsState r f g v = record { ram_bytes = r; cached = λ h. rw f (v.cached (rw g at h)) }

  write_by-IsState :
      (m : AccessMethod) (c : FanCurve) (b : Bool) (s : State F)
      → IsState s
      → IsState (write_by fw ro conf m c b s).1
  unfolding write_by
  write_by-IsState ec c b s v =
      ram-IsState (write_legion-IsRam v.ram_bytes ro conf.registers c b) refl refl v
  write_by-IsState ec2 c b s v =
      ram-IsState (write_ideapad-IsRam v.ram_bytes ro conf.registers c) refl refl v
  write_by-IsState ec3 c b s v =
      ram-IsState (write_loq-IsRam v.ram_bytes ro conf.registers c) refl refl v
  write_by-IsState ec4 c b s v =
      ram-IsState (write_legion2024-IsRam v.ram_bytes ro conf.registers c) refl refl v
  write_by-IsState wmi3 c b s v = SameDriver-IsState (wmi_write-SameDriver fw conf c s) v
  write_by-IsState _ c b s v = v

  -- From a well-formed state, `write_fancurve` of a well-formed curve leaves a well-formed state.
  pub write_fancurve-IsState :
      (c : FanCurve) (b : Bool) (s : State F)
      → IsCurve c
      → IsState s
      → IsState (write_fancurve fw ro conf c b s).1
  unfolding write_fancurve
  write_fancurve-IsState c b s w v =
      let m = conf.access_method_fancurve in
      guarded-IsState (has_curve_method m) _ s
        (if_written-IsState c _ w (write_by-IsState m c b s v)) v
