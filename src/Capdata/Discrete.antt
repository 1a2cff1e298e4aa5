-- ===== src/Capdata/Discrete.antt =====
-- The value that is chosen from the discrete values of a feature.
use mathlib.Core.List.{Memᴰ}
use mathlib.Core.List.Memᴰ.{head, tail}
use sc_control.Base.{
  ℕ, ◌≤◌, ◌<◌, ◌≡◌, refl, sym, subst, ◌==◌, Bool, true, false, if◌then◌else◌, List, [], ◌∷◌, some,
  arith, ℤ, ltb_ℤ, distance, All,
}
use sc_control.Capdata.{Capdata01, DiscreteFeature, wrapped_abs, closest, capdata_clamp}

-- The differences of ints do not overflow.
abbrev pub NoOverflow : ℤ → List ℤ → Type 0
NoOverflow value = All λ v. distance value v < 2147483648

skip : {r best v : ℤ} {vs : List ℤ} → Memᴰ r (best ∷ vs) → Memᴰ r (best ∷ v ∷ vs)
skip (head e) = head e
skip (tail m) = tail (tail m)

-- One of the values, no further away than any of them.
abbrev pub Chosen : ℤ → ℤ → List ℤ → Type 0
Chosen value r vs = Memᴰ r vs × All (λ v. distance value r ≤ distance value v) vs

-- A choice among the better of two values and the rest is one among all of them.
choose :
    (b : Bool) (value r best v : ℤ) (vs : List ℤ)
    → (b ≡ true → distance value v ≤ distance value best)
    → (b ≡ false → distance value best ≤ distance value v)
    → Chosen value r ((if b then v else best) ∷ vs)
    → Chosen value r (best ∷ v ∷ vs)
choose true value r best v vs f g (m, all) =
    let closer = f refl in let near = all.0 in (tail m, (omega arith, all))
choose false value r best v vs f g (m, all) =
    let closer = g refl in let near = all.0 in (skip m, (near, (omega arith, all.1)))

either-NoOverflow :
    (b : Bool) (value best v : ℤ) (vs : List ℤ)
    → NoOverflow value (best ∷ v ∷ vs)
    → NoOverflow value ((if b then v else best) ∷ vs)
either-NoOverflow true value best v vs h = h.1
either-NoOverflow false value best v vs h = (h.0, h.1.1)

closest_lem :
    (value best : ℤ) (vs : List ℤ)
    → NoOverflow value (best ∷ vs)
    → Chosen value (closest value best vs) (best ∷ vs)
unfolding closest
closest_lem value best [] h = (head refl, (omega arith, tt))
closest_lem value best (v ∷ vs) h =
    let b = ltb_ℤ (wrapped_abs (distance value v)) (wrapped_abs (distance value best)) in
    let p = h.0 in
    let q = h.1.0 in
    choose b value _ best v vs (λ e. ground arith) (λ e. ground arith)
      (closest_lem value (if b then v else best) vs (either-NoOverflow b value best v vs h))

-- For an entry without a step and a feature with discrete values, none of which overflows in the
-- difference to the value asked for, the clamped value is one of the values and no value is closer.
pub capdata_clamp_discrete :
    (round : ℤ → ℕ → ℕ) (cd : Capdata01) (value first : ℤ) (rest : List ℤ) (feature_id : ℕ)
    → cd.step ≡ 0
    → NoOverflow value (first ∷ rest)
    → let df : DiscreteFeature = record { feature_id = feature_id; values = first ∷ rest } in
      let r = capdata_clamp round (some cd) value (some df) in Chosen value r (first ∷ rest)
unfolding capdata_clamp
capdata_clamp_discrete round cd value first rest feature_id s h =
    let on : (cd.step == 0) ≡ true = ground arith in
    let df : DiscreteFeature = record { feature_id = feature_id; values = first ∷ rest } in
    let same : capdata_clamp round (some cd) value (some df) ≡ closest value first rest =
      rw on refl in
    subst (λ r. Chosen value r (first ∷ rest)) (sym same) (closest_lem value first rest h)
