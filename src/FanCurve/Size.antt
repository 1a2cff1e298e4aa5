-- ===== src/FanCurve/Size.antt =====
-- The field `size` of a fan curve under `fancurve_set_size`.
use sc_control.Base.{
  ℕ, zero, suc, ◌+◌, ◌-◌, ◌≡◌, refl, ◌∙◌, Bool, true, false, ◌&&◌, ltb, if◌then◌else◌, ℤ, pos,
  pos_part, leb_ℤ,
}
use sc_control.FanCurve.{FanCurve, set_point, point_at}
use sc_control.FanCurve.Setters.{close_at, fill_from, fancurve_set_size}

fill_from-size : (c : FanCurve) (last i n : ℕ) → (fill_from c last i n).size ≡ c.size
unfolding fill_from
fill_from-size c last i zero = refl
fill_from-size c last i (suc n) = fill_from-size (set_point c i (point_at c last)) last (i + 1) n

if-size :
    (b : Bool) (c d e : FanCurve)
    → d.size ≡ c.size
    → e.size ≡ c.size
    → (if b then d else e).size ≡ c.size
if-size true c d e p q = p
if-size false c d e p q = q

if-size_pair :
    (b : Bool) (c : FanCurve) (p q : FanCurve × Bool)
    → p.0.size ≡ c.size
    → q.0.size ≡ c.size
    → (if b then p else q).0.size ≡ c.size
if-size_pair true c p q h k = h
if-size_pair false c p q h k = k

-- `fancurve_set_size` never changes the size of the curve, for any requested size, accepted or not.
pub set_size_keeps_size :
    (c : FanCurve) (size : ℤ) (init_values : Bool)
    → (fancurve_set_size c size init_values).0.size ≡ c.size
unfolding fancurve_set_size close_at
set_size_keeps_size c size init_values =
    let n = pos_part size in
    let last = if ltb 0 c.size then c.size - 1 else 0 in
    let shrunk = if init_values && ltb n c.size then close_at c (n - 1) else c in
    let small : shrunk.size ≡ c.size =
      if-size (init_values && ltb n c.size) c (close_at c (n - 1)) c refl refl in
    if-size_pair (leb_ℤ (pos 1) size && leb_ℤ size (pos 10)) c _ _
      (if-size (init_values && ltb c.size n) c _ shrunk
        (fill_from-size shrunk last c.size (n - c.size) ∙ small) small)
      refl
