-- ===== src/FanCurve/Layout/Allowlisted.antt =====
-- The models of the allowlist: the registers of every EC fan curve layout are distinct cells.
use sc_control.Base.{
  ◌≡◌, refl, Bool, true, false, ◌&&◌, List, [], ◌∷◌, All, min, subst, sym, if◌then◌else◌,
}
use mathlib.Core.List.{Memᴰ}
use mathlib.Core.List.Memᴰ.{head, tail}
use sc_control.Base.Tables.{all_entries, all_entries_sound}
use sc_control.Ec.Writes.{distinct, avoids}
use sc_control.Model.Config.{ModelConfig, AccessMethod, ec, ec2, ec3}
use sc_control.Model.Allowlist.{DmiEntry, optimistic_allowlist}
use sc_control.FanCurve.Layout.Legion.RoundTrip.{legion_addresses, legion_round_trip}
use sc_control.Ec.{Ram, ecram_read}
use sc_control.FanCurve.{FanCurve, IsCurve, rpm_hundred}
use sc_control.FanCurve.Layout.{loop_points}
use sc_control.FanCurve.Layout.Legion.{
  written_point, ec_read_fancurve_legion, ec_write_fancurve_legion,
}
use sc_control.FanCurve.Layout.Ideapad.RoundTrip.{ideapad_addresses}
use sc_control.FanCurve.Layout.Loq.{loq_cmdr_addr}
use sc_control.FanCurve.Layout.Loq.Effect.{loq_addresses}

-- The test of one configuration, by its access method.
unfoldable layout_ok : AccessMethod → ModelConfig → Bool
unfolding distinct avoids legion_addresses ideapad_addresses loq_addresses
layout_ok ec m =
    distinct (legion_addresses m.registers true)
    && (distinct (legion_addresses m.registers false)
        && avoids m.registers.ext_fan_points_size (legion_addresses m.registers false))
layout_ok ec2 m = distinct (ideapad_addresses m.registers)
layout_ok ec3 m = distinct (loq_cmdr_addr ∷ loq_addresses m.registers)
layout_ok _ m = true

all_layouts_ok :
    all_entries
      (λ e. layout_ok e.driver_data.access_method_fancurve e.driver_data)
      optimistic_allowlist
    ≡ true
unfolding layout_ok all_entries
all_layouts_ok = refl

pub All-Mem : {A : Type 0} (P : A → Type 0) {x : A} (xs : List A) → All P xs → Memᴰ x xs → P x
All-Mem P [] h m = elim m [ ]
All-Mem P (x ∷ xs) h (head e) = subst P (sym e) h.0
All-Mem P (x ∷ xs) h (tail m) = All-Mem P xs h.1 m

-- The test holds of every entry of the list.
entry_ok :
    (e : DmiEntry)
    → Memᴰ e optimistic_allowlist
    → layout_ok e.driver_data.access_method_fancurve e.driver_data ≡ true
entry_ok e m =
    All-Mem (λ x. layout_ok x.driver_data.access_method_fancurve x.driver_data ≡ true)
      optimistic_allowlist
      (all_entries_sound (λ x. layout_ok x.driver_data.access_method_fancurve x.driver_data) _
        (λ _ h. h) optimistic_allowlist all_layouts_ok)
      m

both : (a b : Bool) → (a && b) ≡ true → (a ≡ true) × (b ≡ true)
both true b h = (refl, h)
both false b h = cc

legion_facts :
    (a : AccessMethod) (m : ModelConfig) (b : Bool)
    → a ≡ ec
    → layout_ok a m ≡ true
    → (distinct (legion_addresses m.registers b) ≡ true)
      × (avoids m.registers.ext_fan_points_size (legion_addresses m.registers false) ≡ true)
unfolding layout_ok
legion_facts ec m true e h = let (with_size, rest) = both _ _ h in (with_size, (both _ _ rest).1)
legion_facts ec m false e h = both _ _ (both _ _ h).1
legion_facts _ m b e h = cc

-- For every entry of the allowlist whose fan curve is accessed by the EC, and with writes enabled: a
-- well-formed curve that is written is read back with every point below its size as written and zero
-- points past it, with its size where the size is written, and with the current point 0.
pub allowlisted_legion_round_trip :
    (e : DmiEntry) (ram : Ram) (c before : FanCurve) (b : Bool)
    → Memᴰ e optimistic_allowlist
    → e.driver_data.access_method_fancurve ≡ ec
    → IsCurve c
    → let r = e.driver_data.registers in
      ec_read_fancurve_legion (ec_write_fancurve_legion false ram r c b) r before ≡ record before {
        points = loop_points (written_point c) 0 10;
        fan_speed_unit = rpm_hundred;
        size = if b then c.size else min (ecram_read ram r.ext_fan_points_size) 10;
        current_point_i = 0;
      }
allowlisted_legion_round_trip e ram c before b m a v =
    let (d, f) =
      legion_facts e.driver_data.access_method_fancurve e.driver_data b a (entry_ok e m) in
    legion_round_trip ram e.driver_data.registers c before b v d f
