-- ===== src/FanControl/Autopoint/StoreShow.antt =====
-- A field of a point that is stored on a model with the EC layout of `ec_read_fancurve_legion` is
-- shown as it was stored.
use sc_control.Base.{
  ℕ, zero, suc, ◌+◌, ◌<◌, ◌≡◌, refl, ap, ◌∙◌, Bool, true, false, pos, some, arith, get_or, min, sym,
}
use sc_control.Errno.{Result, ok}
use sc_control.Ec.{Ram, ecram_read}
use sc_control.Model.Registers.{EcRegisterOffsets}
use sc_control.Ec.Writes.{avoids, distinct}
use sc_control.Model.Config.{ModelConfig, ec}
use sc_control.Firmware.State.{Firmware, State}
use sc_control.FanCurve.{FanCurve, FanCurvePoint, IsCurve, IsMemory, point_at, fancurve_point_zero}
use sc_control.FanCurve.Layout.{loop_points}
use sc_control.FanCurve.Layout.Bounds.{read_legion-IsCurve}
use sc_control.FanCurve.Layout.Legion.{
  written_point, ec_read_fancurve_legion, ec_write_fancurve_legion,
}
use sc_control.FanCurve.Layout.Legion.RoundTrip.{legion_addresses, legion_round_trip}
use sc_control.FanControl.Curve.{
  remember_curve, or_cached, if_written, read_by, read_fancurve, write_by, write_fancurve,
}
use sc_control.FanControl.Curve.Cache.{IsState}
use sc_control.FanControl.Autopoint.{
  FanCurveAttr, attr_size, is_size, get_attr, set_attr, after_read, autopoint_show, autopoint_store,
}
use sc_control.FanControl.Autopoint.Laws.{set_attr-IsCurve}
use sc_control.FanControl.Autopoint.Success.{autopoint_store_success}
use sc_control.FanControl.Autopoint.Fields.{is_field, set_attr-get_attr, get_attr-congr}

module _ {F : Type 0} (fw : Firmware F) (ro : Bool) (conf : ModelConfig) where
  pub read_fancurve-ec :
      (before : FanCurve) (s : State F)
      → conf.access_method_fancurve ≡ ec
      → let c = ec_read_fancurve_legion s.ram conf.registers before in
        read_fancurve fw ro conf before s ≡ (ok c, remember_curve c s)
  unfolding read_fancurve read_by or_cached
  read_fancurve-ec before s e = rw (e, read_fancurve)

  pub write_fancurve-ec :
      (d : FanCurve) (b : Bool) (s : State F)
      → conf.access_method_fancurve ≡ ec
      → write_fancurve fw ro conf d b s ≡ (
        ok tt,
        remember_curve d (record s { ram = ec_write_fancurve_legion ro s.ram conf.registers d b }),
      )
  unfolding write_fancurve write_by if_written
  write_fancurve-ec d b s e = rw (e, write_fancurve)

get_or-loop_points :
    (f : ℕ → FanCurvePoint) (k n i : ℕ)
    → i < n
    → get_or (loop_points f k n) i fancurve_point_zero ≡ f (k + i)
unfolding loop_points
get_or-loop_points f k zero i l = absurd (omega arith)
get_or-loop_points f k (suc n) zero l = ap f (omega arith)
get_or-loop_points f k (suc n) (suc i) l =
    get_or-loop_points f (k + 1) n i (omega arith) ∙ ap f (omega arith)

-- The point below the size that is read back is the one written.
point_read_back :
    (ram : Ram) (r : EcRegisterOffsets) (d later : FanCurve) (i : ℕ)
    → IsCurve d
    → distinct (legion_addresses r false) ≡ true
    → avoids r.ext_fan_points_size (legion_addresses r false) ≡ true
    → i < d.size
    → i < 10
    → point_at (ec_read_fancurve_legion (ec_write_fancurve_legion false ram r d false) r later) i
      ≡ point_at d i
point_read_back ram r d later i w x y l k =
    ap (λ c. point_at c i) (legion_round_trip ram r d later false w x y)
    ∙ (get_or-loop_points (written_point d) 0 10 i k ∙ ground arith)

size_of_read :
    (ram : Ram) (r : EcRegisterOffsets) (before : FanCurve) (i : ℕ)
    → i < min (ecram_read ram r.ext_fan_points_size) 10
    → i < (ec_read_fancurve_legion ram r before).size
unfolding ec_read_fancurve_legion
size_of_read ram r before i l = l

not_size : (attr : FanCurveAttr) → is_field attr ≡ true → is_size attr ≡ false
not_size attr_size f = cc
not_size _ f = refl

module _ {F : Type 0} (fw : Firmware F) (conf : ModelConfig) where
  show-ec :
      (later : FanCurve) (attr : FanCurveAttr) (i : ℕ) (t : State F)
      → conf.access_method_fancurve ≡ ec
      → i < 10
      → (autopoint_show fw false conf later attr i t).0
        ≡ get_attr attr (ec_read_fancurve_legion t.ram conf.registers later) i
  unfolding autopoint_show after_read
  show-ec later attr i t e l = rw (read_fancurve-ec fw false conf later t e) (ground arith)

  -- The show after the write of an accepted edit of the curve read.
  show_after_edit :
      (before later d : FanCurve) (attr : FanCurveAttr) (i n : ℕ) (s t : State F)
      → conf.access_method_fancurve ≡ ec
      → distinct (legion_addresses conf.registers false) ≡ true
      → avoids conf.registers.ext_fan_points_size (legion_addresses conf.registers false) ≡ true
      → is_field attr ≡ true
      → IsState s
      → IsMemory before
      → i < min (ecram_read s.ram conf.registers.ext_fan_points_size) 10
      → set_attr attr (ec_read_fancurve_legion s.ram conf.registers before) i (pos n)
        ≡ some (d, true)
      → t.ram ≡ ec_write_fancurve_legion false s.ram conf.registers d false
      → (autopoint_show fw false conf later attr i t).0 ≡ ok n
  show_after_edit before later d attr i n s t e x y f v w l u m =
      let r = conf.registers in
      let c = ec_read_fancurve_legion s.ram r before in
      let bound : i < 10 = omega arith in
      let valid = read_legion-IsCurve v.ram_bytes r w in
      let (shown, size) = set_attr-get_attr attr i n f valid bound u in
      let below : i < d.size = rw size (size_of_read s.ram r before i l) in
      let edited : IsCurve d = rw u at (set_attr-IsCurve attr {c = c} i (pos n) valid) in
      let same = point_read_back s.ram r d later i edited x y below bound in
      show-ec later attr i t e bound
      ∙ (get_attr-congr attr _ d i f
            (ap (λ ram. point_at (ec_read_fancurve_legion ram r later) i) m ∙ same)
          ∙ shown)

  -- On a model with EC access whose registers are distinct, and with writes enabled: a successful
  -- store of a temperature or a ramp to a point below the size that the EC holds is shown afterwards
  -- as the number stored, whatever the local structures of both calls held before.
  pub autopoint_store_show :
      (before later : FanCurve) (attr : FanCurveAttr) (i n : ℕ) (s : State F)
      → conf.access_method_fancurve ≡ ec
      → distinct (legion_addresses conf.registers false) ≡ true
      → avoids conf.registers.ext_fan_points_size (legion_addresses conf.registers false) ≡ true
      → is_field attr ≡ true
      → IsState s
      → IsMemory before
      → i < min (ecram_read s.ram conf.registers.ext_fan_points_size) 10
      → (autopoint_store fw false conf before attr i (ok (pos n)) s).0 ≡ ok tt
      → (autopoint_show fw false conf later attr i
          (autopoint_store fw false conf before attr i (ok (pos n)) s).1).0
        ≡ ok n
  autopoint_store_show before later attr i n s e x y f v w l h =
      let r = conf.registers in
      let (_, _, (value, p, (_, (c, d, q, u, m, _)))) =
        autopoint_store_success fw false conf before attr i (ok (pos n)) s h in
      let same : value ≡ pos n = cc in
      let back = read_fancurve-ec fw false conf before s e in
      let read : Result FanCurve × State F = read_fancurve fw false conf before s in
      let result : ok (ec_read_fancurve_legion s.ram r before) ≡ ok c =
        sym (ap (λ z. z.0) back) ∙ q in
      let curve : ec_read_fancurve_legion s.ram r before ≡ c = cc in
      let written = rw (not_size attr f) at (ap (λ z. z.ram) m) in
      let ram =
        written
        ∙ (ap (λ z. z.1.ram) (write_fancurve-ec fw false conf d false read.1 e)
            ∙ ap (λ z. ec_write_fancurve_legion false z.1.ram r d false) back) in
      let edit : set_attr attr (ec_read_fancurve_legion s.ram r before) i (pos n) ≡ some (d, true) =
        cc in
      show_after_edit before later d attr i n s _ e x y f v w l edit ram
