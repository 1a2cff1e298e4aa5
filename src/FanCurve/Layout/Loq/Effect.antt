-- ===== src/FanCurve/Layout/Loq/Effect.antt =====
-- What `ec_write_fancurve_loq` does to the EC RAM.
use Prim.Native.Nat.{bit_or}
use sc_control.Base.{
  ℕ, ◌+◌, ◌/◌, ◌%◌, ◌<◌, ◌≡◌, refl, ap, ◌∙◌, true, false, List, [], ◌∷◌, arith, ◌==◌, ==_iff,
  if◌then◌else◌, All, All-append, map, ◌++◌, ◌*◌, zero, suc, u8, subst,
}
use sc_control.Base.Tables.{holds_up_to, holds_up_to_sound}
use sc_control.Ec.{Ram, ecram_read}
use sc_control.Ec.Writes.{
  write_all, addresses, avoids, distinct, Holds, Holds-frame, write_all-Holds, write_all_frame,
}
use sc_control.Model.Registers.{EcRegisterOffsets}
use sc_control.FanCurve.{FanCurve, FanCurvePoint, point_at}
use sc_control.FanCurve.Layout.{loop_writes}
use sc_control.FanCurve.Layout.Loq.{point_cells, loq_writes, ec_write_fancurve_loq, loq_cmdr_addr}

-- The registers of the first structure, in the order of its fields.
abbrev structure : EcRegisterOffsets → List ℕ
structure r =
    r.ext_fan1_base ∷ r.ext_fan2_base ∷ r.ext_cpu_temp ∷ r.ext_cpu_temp_hyst ∷ r.ext_gpu_temp
    ∷ r.ext_gpu_temp_hyst ∷ r.ext_vrm_temp ∷ r.ext_vrm_temp_hyst ∷ []

-- Those of `n` structures from the one of index `i` on, each six bytes after the last.
abbrev structures : EcRegisterOffsets → ℕ → ℕ → List ℕ
structures r i zero = []
structures r i (suc n) = map (λ base. base + i * 6) (structure r) ++ structures r (i + 1) n

-- The registers of the table: ten structures.
unfoldable pub loq_addresses : EcRegisterOffsets → List ℕ
loq_addresses r = structures r 0 10

-- The structure of index `i` holds the fields of the point.
pub record HoldsPoint (ram : Ram) (r : EcRegisterOffsets) (i : ℕ) (p : FanCurvePoint) : Type 0 where
  pub fan1 : ecram_read ram (r.ext_fan1_base + i * 6) ≡ u8 p.speed1
  pub fan2 : ecram_read ram (r.ext_fan2_base + i * 6) ≡ u8 p.speed2
  pub cpu_max : ecram_read ram (r.ext_cpu_temp + i * 6) ≡ u8 p.cpu_max_temp_celsius
  pub cpu_min : ecram_read ram (r.ext_cpu_temp_hyst + i * 6) ≡ u8 p.cpu_min_temp_celsius
  pub gpu_max : ecram_read ram (r.ext_gpu_temp + i * 6) ≡ u8 p.gpu_max_temp_celsius
  pub gpu_min : ecram_read ram (r.ext_gpu_temp_hyst + i * 6) ≡ u8 p.gpu_min_temp_celsius
  pub ic_max : ecram_read ram (r.ext_vrm_temp + i * 6) ≡ u8 p.ic_max_temp_celsius
  pub ic_min : ecram_read ram (r.ext_vrm_temp_hyst + i * 6) ≡ u8 p.ic_min_temp_celsius

cells-HoldsPoint :
    (ram : Ram) (r : EcRegisterOffsets) (i : ℕ) (p : FanCurvePoint)
    → Holds ram (point_cells r i p)
    → HoldsPoint ram r i p
unfolding point_cells
cells-HoldsPoint ram r i p h = record {
  fan1 = h.0;
  fan2 = h.1.0;
  cpu_max = h.1.1.0;
  cpu_min = h.1.1.1.0;
  gpu_max = h.1.1.1.1.0;
  gpu_min = h.1.1.1.1.1.0;
  ic_max = h.1.1.1.1.1.1.0;
  ic_min = h.1.1.1.1.1.1.1.0;
}

-- What holds of a loop's writes holds of each round's.
round-Holds :
    (ram : Ram) (cells : ℕ → List (ℕ × ℕ)) (i n k : ℕ)
    → k < n
    → Holds ram (loop_writes cells i n)
    → Holds ram (cells (i + k))
unfolding loop_writes
round-Holds ram cells i zero k l h = absurd (omega arith)
round-Holds ram cells i (suc n) zero l h =
    let parts = All-append (λ w. ecram_read ram w.0 ≡ u8 w.1) (cells i) _ h in
    subst (λ m. Holds ram (cells m)) (omega arith) parts.0
round-Holds ram cells i (suc n) (suc k) l h =
    let parts = All-append (λ w. ecram_read ram w.0 ≡ u8 w.1) (cells i) _ h in
    subst (λ m. Holds ram (cells m)) (omega arith)
      (round-Holds ram cells (i + 1) n k (omega arith) parts.1)

loq_addresses_lem :
    (r : EcRegisterOffsets) (c : FanCurve) → addresses (loq_writes r c) ≡ loq_addresses r
unfolding loq_addresses loq_writes loop_writes point_cells
loq_addresses_lem r c = refl

-- Bit 4 set, by arithmetic.
abbrev pub with_bit4 : ℕ → ℕ
with_bit4 b = if b / 16 % 2 == 1 then b else b + 16

bit4_table : holds_up_to (λ b. bit_or b 16 == with_bit4 b) 256 ≡ true
unfolding holds_up_to
bit4_table = refl

bit_or_sixteen : (b : ℕ) → b < 256 → bit_or b 16 ≡ with_bit4 b
bit_or_sixteen b h = (==_iff _ _).0 (holds_up_to_sound _ 256 b h bit4_table)

avoids-each :
    (a : ℕ) (ws : List (ℕ × ℕ))
    → avoids a (addresses ws) ≡ true
    → All (λ w. avoids w.0 (a ∷ []) ≡ true) ws
unfolding avoids
avoids-each a [] h = tt
avoids-each a ((b, v) ∷ ws) h = (ground arith, avoids-each a ws (ground arith))

-- At distinct registers, `ec_write_fancurve_loq` leaves in each of the ten structures the speeds and the
-- temperatures of the point with its index, as bytes, sets bit 4 of the command register and keeps its other bits,
-- and keeps the byte at any other address `a`.
pub loq_write_lem :
    (ram : Ram) (r : EcRegisterOffsets) (c : FanCurve) (i a : ℕ)
    → distinct (loq_cmdr_addr ∷ loq_addresses r) ≡ true
    → ecram_read ram loq_cmdr_addr < 256
    → i < 10
    → avoids a (loq_cmdr_addr ∷ loq_addresses r) ≡ true
    → let after = ec_write_fancurve_loq false ram r c in
      HoldsPoint after r i (point_at c i)
      × (ecram_read after loq_cmdr_addr ≡ with_bit4 (ecram_read ram loq_cmdr_addr))
      × (ecram_read after a ≡ ecram_read ram a)
unfolding ec_write_fancurve_loq distinct write_all loq_writes
loq_write_lem ram r c i a d lt l h = (
  cells-HoldsPoint (ec_write_fancurve_loq false ram r c) r i (point_at c i) (
      subst (λ m. Holds (ec_write_fancurve_loq false ram r c) (point_cells r m (point_at c m)))
        (omega arith)
        (round-Holds (ec_write_fancurve_loq false ram r c) (λ m. point_cells r m (point_at c m)) 0
          10 i l held)),
  ground (
    arith,
    write_all_frame false ram ws loq_cmdr_addr apart,
    bit_or_sixteen (ecram_read ram loq_cmdr_addr) lt,
  ),
  ground (arith, write_all_frame false ram ws a (ap (avoids a) same ∙ ground arith)),
)
  where
    ws : List (ℕ × ℕ)
    ws = loq_writes r c

    table : Ram
    table = write_all false ram ws

    same : addresses ws ≡ loq_addresses r
    same = loq_addresses_lem r c

    apart : avoids loq_cmdr_addr (addresses ws) ≡ true
    apart = ap (avoids loq_cmdr_addr) same ∙ ground arith

    held : Holds (ec_write_fancurve_loq false ram r c) ws
    held =
        Holds-frame false table ws
          ((loq_cmdr_addr, bit_or (ecram_read table loq_cmdr_addr) 16) ∷ [])
          (avoids-each loq_cmdr_addr ws apart)
          (write_all-Holds ram ws (ap distinct same ∙ ground arith))
