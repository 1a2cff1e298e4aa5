-- ===== src/FanControl/WmiTable/Laws.antt =====
-- What a table that was read or written without an error guarantees.
use sc_control.Base.{
  ℕ, zero, suc, ◌+◌, ◌-◌, ◌<◌, ◌≤◌, ◌≡◌, refl, Bool, true, false, List, [], ◌∷◌, ◌==◌, ltb,
  if◌then◌else◌, arith, length, All, Bool-cases, inl, inr,
}
use sc_control.Errno.{Result, ok, err, eio, erange, Errno, OnOk, OnOk-ok}
use sc_control.Model.Config.{ModelConfig}
use sc_control.Model.Configs.{model_n2cn}
use sc_control.Firmware.State.{Firmware, State}
use sc_control.Firmware.Wmi.{wmi_exec_ints}
use sc_control.FanCurve.{FanCurve, FanCurvePoint, IsPoint, IsCurve, fancurve_point_zero, point_at}
use sc_control.FanControl.WmiTable.{
  is_model, table_speed, table_points, cons_point, table_curve, table_size, parse_table,
  parse_answer, same_speeds, compare, verified, wmi_read_fancurve_custom, send_table,
  wmi_write_fancurve_custom,
}
use sc_control.FanControl.FullSpeed.{fan_method_guid}

-- A list of `n` points.
IsTable : ℕ → List FanCurvePoint → Type 0
IsTable n ps = (length ps ≡ n) × All IsPoint ps

cons_point-IsTable :
    {p : FanCurvePoint} (n m : ℕ) (r : Result (List FanCurvePoint))
    → m ≡ suc n
    → IsPoint p
    → OnOk (IsTable n) r
    → OnOk (IsTable m) (cons_point p r)
unfolding IsTable
cons_point-IsTable n m (ok ps) e q h = (omega (arith, h.0), (q, h.1))
cons_point-IsTable n m (err e) _ q h = tt

zero-IsPoint : IsPoint fancurve_point_zero
zero-IsPoint = ground arith

guard-OnOk :
    {A : Type 0} (P : A → Type 0) (b : Bool) (e : Errno) (r : Result A)
    → (b ≡ false → OnOk P r)
    → OnOk P (if b then err e else r)
guard-OnOk P true e r h = tt
guard-OnOk P false e r h = h refl

table_points-IsTable :
    (bytes : List ℕ) (i n rest m : ℕ)
    → m ≡ n + rest
    → OnOk (IsTable m) (table_points bytes i n rest)
unfolding table_points IsTable
table_points-IsTable bytes i zero zero m e = (omega arith, tt)
table_points-IsTable bytes i zero (suc rest) m e =
    cons_point-IsTable rest m (table_points bytes i zero rest) (omega arith) zero-IsPoint
      (table_points-IsTable bytes i zero rest rest (omega arith))
table_points-IsTable bytes i (suc n) rest m e =
    guard-OnOk (IsTable m) (ltb 255 (table_speed bytes i)) erange _ λ h.
      cons_point-IsTable (n + rest) m (table_points bytes (i + 1) n rest) (omega arith)
        (ground arith) (table_points-IsTable bytes (i + 1) n rest (n + rest) refl)

-- Of a curve from the table: it is well formed and has a first entry.
abbrev pub IsTableCurve : FanCurve → Type 0
IsTableCurve c = IsCurve c × (1 ≤ c.size)

table_curve-IsTableCurve :
    (model : ModelConfig) (n : ℕ) (r : Result (List FanCurvePoint))
    → OnOk (IsTable 10) r
    → 1 ≤ n
    → n ≤ 10
    → OnOk IsTableCurve (table_curve model n r)
unfolding IsTable
table_curve-IsTableCurve model n (err e) h k l = tt
table_curve-IsTableCurve model n (ok ps) h k l =
    (record { entries = h.0; bytes = h.1; fits = l; rpm_word = omega arith }, k)

parse_table-IsTableCurve :
    (model : ModelConfig) (bytes : List ℕ) → OnOk IsTableCurve (parse_table model bytes)
unfolding parse_table
parse_table-IsTableCurve model bytes =
    let n = table_size model bytes in
    guard-OnOk IsTableCurve (n == 0) eio _ λ h.
      let fits : n ≤ 10 = ground arith in
      table_curve-IsTableCurve model n _ (table_points-IsTable bytes 0 n (10 - n) 10 (omega arith))
        (ground arith) fits

parse_answer-IsTableCurve :
    {F : Type 0} (model : ModelConfig) (p : Result (List ℕ) × State F)
    → OnOk IsTableCurve (parse_answer model p).0
unfolding parse_answer
parse_answer-IsTableCurve model (ok bytes, s) = parse_table-IsTableCurve model bytes
parse_answer-IsTableCurve model (err e, s) = tt

verified_lem :
    {F : Type 0} (readback : State F → Result (Unit {0}) × State F) (b : Bool)
    (p : Result (Unit {0}) × State F)
    → b ≡ true
    → (verified readback b p).0 ≡ ok tt
    → (p.0 ≡ ok tt) × ((readback p.1).0 ≡ ok tt)
unfolding verified
verified_lem readback true (ok u, s) b h = (refl, h)
verified_lem readback true (err e, s) b h = cc
verified_lem readback false p b h = cc

compare_lem :
    {F : Type 0} (c : FanCurve) (p : Result FanCurve × State F)
    → (compare c p).0 ≡ ok tt
    → (d : FanCurve) × (p.0 ≡ ok d) × (same_speeds d c 0 10 ≡ true)
unfolding compare
compare_lem c (ok d, s) h = (d, refl, ground arith)
compare_lem c (err e, s) h = cc

same_speeds_lem :
    (a b : FanCurve) (i n j : ℕ)
    → same_speeds a b i n ≡ true
    → i ≤ j
    → j < i + n
    → (point_at a j).speed1 ≡ (point_at b j).speed1
unfolding same_speeds
same_speeds_lem a b i zero j h k l = absurd (omega arith)
same_speeds_lem a b i (suc n) j h k l =
    let first : (point_at a i).speed1 ≡ (point_at b i).speed1 = ground arith in
    let later : same_speeds a b (i + 1) n ≡ true = ground arith in
    elim (Bool-cases (i == j)) [
      | inl e ↦ let same : i ≡ j = ground arith in rw same at first
      | inr e ↦ same_speeds_lem a b (i + 1) n j later (ground arith) (omega arith)
    ]

module _ {F : Type 0} (fw : Firmware F) (model : ModelConfig) where
  -- A curve that is read from the firmware's table without an error is well formed and has a first
  -- entry, whatever bytes the firmware returned.
  pub wmi_read-IsTableCurve :
      (s : State F) (c : FanCurve)
      → (wmi_read_fancurve_custom fw model s).0 ≡ ok c
      → IsCurve c × (1 ≤ c.size)
  unfolding wmi_read_fancurve_custom
  wmi_read-IsTableCurve s c h =
      OnOk-ok IsTableCurve
        (parse_answer-IsTableCurve model (wmi_exec_ints fw fan_method_guid 0 5 (0 ∷ 0 ∷ []) 88 s)) h

  -- On the model N2CN, a write of a table succeeds only if the firmware took the table and the table
  -- read back right after that has, at each of the ten points, the speed that was written.
  pub n2cn_write_verified :
      (s : State F) (c : FanCurve) (i : ℕ)
      → i < 10
      → is_model model model_n2cn ≡ true
      → (wmi_write_fancurve_custom fw model c s).0 ≡ ok tt
      → let (r, t) = send_table fw model c s in
        (r ≡ ok tt)
        × ((d : FanCurve) × ((wmi_read_fancurve_custom fw model t).0 ≡ ok d)
            × ((point_at d i).speed1 ≡ (point_at c i).speed1))
  unfolding wmi_write_fancurve_custom
  n2cn_write_verified s c i l m h =
      let readback : State F → Result (Unit {0}) × State F =
        λ t. compare c (wmi_read_fancurve_custom fw model t) in
      let (sent, back) =
        verified_lem readback (is_model model model_n2cn) (send_table fw model c s) m h in
      let (d, e, same) =
        compare_lem c (wmi_read_fancurve_custom fw model (send_table fw model c s).1) back in
      (sent, (d, e, same_speeds_lem d c 0 10 i same (omega arith) l))
