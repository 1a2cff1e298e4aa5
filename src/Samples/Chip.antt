-- ===== src/Samples/Chip.antt =====
-- A chip that keeps the datasheet behind the two ports, and the port protocol on it.
use sc_control.Base.{ℕ, ◌+◌, ◌*◌, ◌≡◌, refl, ◌==◌, if◌then◌else◌, arith, false}
use sc_control.Ec.{Ram, update, ecram_read, ecram_write}
use sc_control.Ec.Portio.{PortBus, ecram_portio_read, ecram_portio_write, Datasheet, portio_refines}
use sc_control.Samples.{sample_ram}

record Chip : Type 0 where
  index : ℕ
  selector : ℕ
  high : ℕ
  low : ℕ
  ram : Ram

-- A write to the data port.
abbrev chip_put : ℕ → Chip → Chip
chip_put v c =
    if c.index == 0x2e
    then record c { selector = v }
    else if c.index == 0x2f
    then if c.selector == 0x11
      then record c { high = v }
      else if c.selector == 0x10
      then record c { low = v }
      else if c.selector == 0x12
      then record c { ram = update c.ram (c.high * 256 + c.low) v }
      else c
    else c

abbrev chip_bus : PortBus Chip
chip_bus = record {
  outb = λ port v c.
      if port == 0x4e then record c { index = v } else if port == 0x4f then chip_put v c else c;
  inb = λ port c. (c.ram (c.high * 256 + c.low), c);
}

chip-Datasheet : Datasheet chip_bus
chip-Datasheet = record {
  index = λ c. c.index;
  selector = λ c. c.selector;
  high = λ c. c.high;
  low = λ c. c.low;
  ram = λ c. c.ram;
  index-select = λ v s. refl;
  selector-select = λ v s. refl;
  high-select = λ v s. refl;
  low-select = λ v s. refl;
  ram-select = λ v s. refl;
  selector-put = λ v s. ground arith;
  high-put = λ v s. ground arith;
  low-put = λ v s. ground arith;
  ram-put = λ v s. ground arith;
  value-get = λ s h k. refl;
  ram-get = λ s. refl;
}

abbrev sample_chip : Chip
sample_chip = record { index = 0; selector = 0; high = 0; low = 0; ram = sample_ram }

portio_refines_example :
    ((ecram_portio_read chip_bus 0xc534 sample_chip).0 ≡ ecram_read sample_ram 0xc534)
    × ((ecram_portio_read chip_bus 0xc534 sample_chip).1.ram ≡ sample_ram)
    × ((ecram_portio_write chip_bus 0xc534 7 sample_chip).ram
        ≡ ecram_write false sample_ram 0xc534 7)
unfolding chip-Datasheet
portio_refines_example = portio_refines chip_bus chip-Datasheet 0xc534 7 sample_chip
