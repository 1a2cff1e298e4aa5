-- ===== src/PowerLimits/Ordered.antt =====
-- The coupled stores of the CPU power limits keep them in order.
use sc_control.Base.{
  ℕ, ◌≡◌, refl, sym, ◌∙◌, subst, ap, Bool, true, if◌then◌else◌, List, ℤ, ltb_ℤ, ◌≤ℤ◌, arith,
}
use sc_control.Errno.{Result, ok}
use sc_control.Capdata.{Capdata01, DiscreteFeature}
use sc_control.Model.Config.{ModelConfig, wmi3_clamped}
use sc_control.Firmware.State.{Firmware, State, M}
use sc_control.PowerLimits.{Parsed, clamped}
use sc_control.PowerLimits.Coupling.{coupled_store}
use sc_control.PowerLimits.Cpu.{
  cpu_shortterm_powerlimit_store, cpu_longterm_powerlimit_store, cpu_shortterm_powerlimit_store_by,
  cpu_longterm_powerlimit_store_by,
}
use sc_control.PowerLimits.Kept.{
  CpuLimit, longterm, shortterm, feature_of, partner_of, IsInt, KeepsLimits, limit, after,
  coupled_to, limit_changed, limit_left_alone, coupled_store_lem, moved_lem,
}

below : (v p : ℤ) → (if ltb_ℤ v p then v else p) ≤ℤ v
below v p = ground arith

above : (v p : ℤ) → v ≤ℤ (if ltb_ℤ p v then v else p)
above v p = ground arith

-- When is the partner's limit out of order with a new value?
abbrev pub exceeds_of : CpuLimit → ℤ → ℤ → Bool
exceeds_of shortterm pl1 value = ltb_ℤ value pl1
exceeds_of longterm pl2 value = ltb_ℤ pl2 value

in_order :
    (l : CpuLimit) (f : CpuLimit → ℤ) (v p : ℤ)
    → f l ≡ v
    → f (partner_of l) ≡ (if exceeds_of l p v then v else p)
    → f longterm ≤ℤ f shortterm
in_order shortterm f v p x y = rw (x, y) (below v p)
in_order longterm f v p x y = rw (x, y) (above v p)

module _ {F : Type 0} (fw : Firmware F) (conf : ModelConfig) (round : ℤ → ℕ → ℕ)
    (capdata : List Capdata01) (features : List DiscreteFeature) where
  -- The store of a limit.
  abbrev pub cpu_limit_store : CpuLimit → Parsed → M F (Unit {0})
  cpu_limit_store longterm = cpu_longterm_powerlimit_store fw conf round capdata features
  cpu_limit_store shortterm = cpu_shortterm_powerlimit_store fw conf round capdata features

  abbrev stored : CpuLimit → Result ℤ → M F (Unit {0})
  stored l r = coupled_store fw (exceeds_of l) (feature_of (partner_of l)) (feature_of l) r

  by_clamped :
      (l : CpuLimit) (text : Parsed) (s : State F) (v : ℤ)
      → conf.access_method_powerlimits ≡ wmi3_clamped
      → clamped fw round capdata features (feature_of l) text s ≡ ok v
      → cpu_limit_store l text s ≡ stored l (ok v) s
  unfolding cpu_shortterm_powerlimit_store cpu_longterm_powerlimit_store
      cpu_shortterm_powerlimit_store_by cpu_longterm_powerlimit_store_by
  by_clamped longterm text s v m c =
      ap (λ a. cpu_longterm_powerlimit_store_by fw conf round capdata features a text s) m
      ∙ ap (λ r. stored longterm r s) c
  by_clamped shortterm text s v m c =
      ap (λ a. cpu_shortterm_powerlimit_store_by fw conf round capdata features a text s) m
      ∙ ap (λ r. stored shortterm r s) c

  -- The stores of the two CPU power limits, on a model with clamped limits, with the coupling on and on a
  -- firmware that keeps the limits: when the text clamps to an int, the store succeeds, the limit has the
  -- clamped value, the other limit is moved to that value only if the two were in the wrong order, and
  -- the long-term limit is at most the short-term limit afterwards, whatever they were before.
  pub coupled_limits_ordered :
      (law : KeepsLimits fw) (l : CpuLimit) (text : Parsed) (s : State F) (v : ℤ)
      → conf.access_method_powerlimits ≡ wmi3_clamped
      → s.cpu_pl_coupling ≡ true
      → clamped fw round capdata features (feature_of l) text s ≡ ok v
      → IsInt v
      → let (r, t) = cpu_limit_store l text s in
        let old = limit fw law (partner_of l) s in
        (r ≡ ok tt)
        × (limit fw law l t ≡ v)
        × (limit fw law (partner_of l) t ≡ (if exceeds_of l old v then v else old))
        × (limit fw law longterm t ≤ℤ limit fw law shortterm t)
  coupled_limits_ordered law l text s v m on c h =
      let p = partner_of l in
      let run = by_clamped l text s v m c ∙ coupled_store_lem fw law (exceeds_of l) l v s on in
      let between = coupled_to fw law (exceeds_of l) p v s in
      let t = after fw law l v between in
      let old = limit fw law p s in
      let same : limit fw law l t ≡ v = limit_changed fw law l v between h in
      let other : limit fw law p t ≡ (if exceeds_of l old v then v else old) =
        limit_left_alone fw law l v between
        ∙ moved_lem fw law (exceeds_of l) p v s (exceeds_of l old v) h in
      subst
        (λ q.
          (q.0 ≡ ok tt)
          × (limit fw law l q.1 ≡ v)
          × (limit fw law p q.1 ≡ (if exceeds_of l old v then v else old))
          × (limit fw law longterm q.1 ≤ℤ limit fw law shortterm q.1))
        (sym run) (refl, same, other, in_order l (λ k. limit fw law k t) v old same other)
