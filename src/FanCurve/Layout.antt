-- ===== src/FanCurve/Layout.antt =====
-- How the fan curve lies in the EC RAM: the loops that the four layouts share. A layout gives the
-- cells of entry `i` and the read of entry `i`; each lies in a child.
pub mod Legion
pub mod Ideapad
pub mod Legion2024
pub mod Loq
pub mod Bounds
pub mod Allowlisted
use sc_control.Base.{
  ℕ, zero, suc, ◌+◌, ◌-◌, ◌<◌, ◌≤◌, ◌≡◌, refl, ap, ap₂, List, [], ◌∷◌, ◌++◌, arith, length, get_or,
  u8, All-append, ◌∙◌,
}
use sc_control.Ec.{Ram, ecram_read}
use sc_control.Ec.Writes.{Holds, addresses}
use sc_control.FanCurve.{FanCurvePoint, FanCurve, point_at, fancurve_point_zero}

-- The writes of `n` rounds from `i` on.
unfoldable pub loop_writes : (ℕ → List (ℕ × ℕ)) → ℕ → ℕ → List (ℕ × ℕ)
loop_writes cells i zero = []
loop_writes cells i (suc n) = cells i ++ loop_writes cells (i + 1) n

-- The entries of `n` rounds from `i` on.
unfoldable pub loop_points : (ℕ → FanCurvePoint) → ℕ → ℕ → List FanCurvePoint
loop_points f i zero = []
loop_points f i (suc n) = f i ∷ loop_points f (i + 1) n

pub length-loop_points : (f : ℕ → FanCurvePoint) (i n : ℕ) → length (loop_points f i n) ≡ n
unfolding loop_points
length-loop_points f i zero = refl
length-loop_points f i (suc n) = ap suc (length-loop_points f (i + 1) n)

-- If every round's cells hold and a round's read inverts its cells, the loop reads what was written.
pub loop_points_of_Holds :
    (ram : Ram) (cells : ℕ → List (ℕ × ℕ)) (f g : ℕ → FanCurvePoint)
    → ((j : ℕ) → Holds ram (cells j) → f j ≡ g j)
    → (i n : ℕ) → Holds ram (loop_writes cells i n)
    → loop_points f i n ≡ loop_points g i n
unfolding loop_writes loop_points
loop_points_of_Holds ram cells f g e i zero h = refl
loop_points_of_Holds ram cells f g e i (suc n) h =
    let parts = All-append (λ w. ecram_read ram w.0 ≡ u8 w.1) (cells i) _ h in
    ap₂ ◌∷◌ (e i parts.0) (loop_points_of_Holds ram cells f g e (i + 1) n parts.1)

pub loop_points-congr :
    (f g : ℕ → FanCurvePoint)
    → ((j : ℕ) → f j ≡ g j)
    → (i n : ℕ) → loop_points f i n ≡ loop_points g i n
unfolding loop_points
loop_points-congr f g e i zero = refl
loop_points-congr f g e i (suc n) = ap₂ ◌∷◌ (e i) (loop_points-congr f g e (i + 1) n)

loop_points_shift :
    (f : ℕ → FanCurvePoint) (i n : ℕ) → loop_points f (i + 1) n ≡ loop_points (λ j. f (j + 1)) i n
unfolding loop_points
loop_points_shift f i zero = refl
loop_points_shift f i (suc n) = ap (λ t. f (i + 1) ∷ t) (loop_points_shift f (i + 1) n)

get_or-tail :
    (x : FanCurvePoint) (xs : List FanCurvePoint) (j : ℕ)
    → get_or (x ∷ xs) (j + 1) fancurve_point_zero ≡ get_or xs j fancurve_point_zero
get_or-tail x xs j = ground arith

-- The whole array, read entry by entry, is the array.
pub loop_points-get_or :
    (xs : List FanCurvePoint)
    → loop_points (λ j. get_or xs j fancurve_point_zero) 0 (length xs) ≡ xs
unfolding loop_points
loop_points-get_or [] = refl
loop_points-get_or (x ∷ xs) =
    ap (λ t. x ∷ t)
      (loop_points_shift _ 0 (length xs)
        ∙ (loop_points-congr _ _ (get_or-tail x xs) 0 (length xs) ∙ loop_points-get_or xs))
