-- ===== src/FanControl/Switches.antt =====
-- Switches that are one EC register with an on and an off value: the mini fan curve, the lock of the
-- fan controller and the full speed of the fans.
use Prim.Native.Nat.{bit_or, bit_and}
use sc_control.Base.{
  ℕ, ◌+◌, ◌*◌, ◌/◌, ◌%◌, ◌<◌, ◌≡◌, refl, Bool, true, false, arith, ◌==◌, if◌then◌else◌,
}
use sc_control.Base.Tables.{holds_up_to, holds_up_to_sound}
use sc_control.Errno.{Result, ok, err, eio, ebusy}
use sc_control.Ec.{Ram, ecram_read, ecram_write}
use sc_control.Model.Config.{ModelConfig}

-- The switch of a register: true at the on value, false at the off value, and else eio.
abbrev switch_at : ℕ → ℕ → ℕ → Result Bool
switch_at on off value = if value == on then ok true else if value == off then ok false else err eio

-- `ec_read_minifancurve`
unfoldable pub ec_read_minifancurve : Ram → ModelConfig → Result Bool
ec_read_minifancurve ram model =
    switch_at 0x04 0xa0 (ecram_read ram model.registers.ext_minifancurve_on_cool)

-- `ec_write_minifancurve`
unfoldable pub ec_write_minifancurve : Bool → Ram → ModelConfig → Bool → Ram
ec_write_minifancurve ro ram model state =
    ecram_write ro ram model.registers.ext_minifancurve_on_cool (if state then 0x04 else 0xa0)

-- `ec_write_lockfancontroller`
unfoldable pub ec_write_lockfancontroller : Bool → Ram → ModelConfig → Bool → Ram
ec_write_lockfancontroller ro ram model state =
    ecram_write ro ram model.registers.ext_lockfancontroller (if state then 8 else 0)

-- `ec_read_lockfancontroller`
unfoldable pub ec_read_lockfancontroller : Ram → ModelConfig → Result Bool
ec_read_lockfancontroller ram model =
    switch_at 8 0 (ecram_read ram model.registers.ext_lockfancontroller)

-- `ec_read_fanfullspeed`
unfoldable pub ec_read_fanfullspeed : Ram → ModelConfig → Result Bool
ec_read_fanfullspeed ram model =
    switch_at 0x40 0x00 (ecram_read ram model.registers.ext_maximumfanspeed)

-- `ec_write_fanfullspeed`
unfoldable pub ec_write_fanfullspeed : Bool → Ram → ModelConfig → Bool → Ram
ec_write_fanfullspeed ro ram model state =
    ecram_write ro ram model.registers.ext_maximumfanspeed (if state then 0x40 else 0x00)

abbrev pub ec4_fanfullspeed_reg : ℕ
ec4_fanfullspeed_reg = 0xcfb6

-- `ec_read_fanfullspeed_legion2024`: bit 0 of the register.
unfoldable pub ec_read_fanfullspeed_legion2024 : Ram → Result Bool
ec_read_fanfullspeed_legion2024 ram =
    ok (if bit_and (ecram_read ram ec4_fanfullspeed_reg) 1 == 0 then false else true)

-- `ec_write_fanfullspeed_legion2024`: the complement of bit 0 is taken on 32 bits.
unfoldable pub ec_write_fanfullspeed_legion2024 : Bool → Ram → Bool → Ram
ec_write_fanfullspeed_legion2024 ro ram state =
    let value = ecram_read ram ec4_fanfullspeed_reg in
    ecram_write ro ram ec4_fanfullspeed_reg
      (if state then bit_or value 1 else bit_and value 4294967294)

-- `fan_control_write_allowed`
unfoldable pub fan_control_write_allowed : Ram → ModelConfig → Result (Unit {0})
fan_control_write_allowed ram model =
    if model.require_unlocked_fan_controller
    then elim (ec_read_lockfancontroller ram model) [
      | err e ↦ err e
      | ok locked ↦ if locked then err ebusy else ok tt
    ]
    else ok tt

-- Each switch reads as it was written, for any RAM and model, where writes are enabled.
pub switches_round_trip :
    (ram : Ram) (model : ModelConfig) (state : Bool)
    → (ec_read_minifancurve (ec_write_minifancurve false ram model state) model ≡ ok state)
      × (ec_read_lockfancontroller (ec_write_lockfancontroller false ram model state) model
          ≡ ok state)
      × (ec_read_fanfullspeed (ec_write_fanfullspeed false ram model state) model ≡ ok state)
unfolding ec_read_minifancurve ec_write_minifancurve ec_read_lockfancontroller
    ec_write_lockfancontroller ec_read_fanfullspeed ec_write_fanfullspeed
switches_round_trip ram model state = ground arith

bit0_table :
    holds_up_to
      (λ b.
        if bit_or b 1 == b / 2 * 2 + 1
        then if bit_and b 4294967294 == b / 2 * 2 then bit_and b 1 == b % 2 else false
        else false)
      256
    ≡ true
unfolding holds_up_to
bit0_table = refl

bit0_lem :
    (b : ℕ)
    → b < 256
    → (bit_or b 1 ≡ b / 2 * 2 + 1) × (bit_and b 4294967294 ≡ b / 2 * 2) × (bit_and b 1 ≡ b % 2)
bit0_lem b h = ground (arith, holds_up_to_sound _ 256 b h bit0_table)

-- Where writes are enabled and the register holds a byte, the full-speed bit of the 2024 models reads
-- as it was written, and the other seven bits of its register stay.
pub fanfullspeed_legion2024_round_trip :
    (ram : Ram) (state : Bool)
    → ecram_read ram ec4_fanfullspeed_reg < 256
    → let after = ec_write_fanfullspeed_legion2024 false ram state in
      (ec_read_fanfullspeed_legion2024 after ≡ ok state)
      × (ecram_read after ec4_fanfullspeed_reg / 2 ≡ ecram_read ram ec4_fanfullspeed_reg / 2)
unfolding ec_read_fanfullspeed_legion2024 ec_write_fanfullspeed_legion2024
fanfullspeed_legion2024_round_trip ram true h =
    let b = bit0_lem (ecram_read ram ec4_fanfullspeed_reg) h in
    let c = bit0_lem (ecram_read ram ec4_fanfullspeed_reg / 2 * 2 + 1) (omega arith) in ground arith
fanfullspeed_legion2024_round_trip ram false h =
    let b = bit0_lem (ecram_read ram ec4_fanfullspeed_reg) h in
    let c = bit0_lem (ecram_read ram ec4_fanfullspeed_reg / 2 * 2) (omega arith) in ground arith
