-- ===== src/Ec.antt =====
-- The embedded controller of driver/legion-laptop.c. The upper layers see its RAM as a function from
-- 16-bit addresses to bytes, through `ecram_read` and `ecram_write`; `Portio` has the port protocol
-- that implements the two, and `Writes` the laws of a sequence of writes.
pub mod Portio
pub mod Writes
pub mod Ident
pub mod Bytes
use sc_control.Base.{ℕ, Bool, ◌==◌, if◌then◌else◌, u8, u16}

abbrev pub Ram : Type 0
Ram = ℕ → ℕ

abbrev pub update : Ram → ℕ → ℕ → Ram
update ram a v b = if a == b then v else ram b

-- `ecram_read`: the offset is a u16.
abbrev pub ecram_read : Ram → ℕ → ℕ
ecram_read ram ecram_offset = ram (u16 ecram_offset)

-- `ecram_write`: nothing is written under the module parameter `ec_readonly`.
abbrev pub ecram_write : Bool → Ram → ℕ → ℕ → Ram
ecram_write ec_readonly ram ecram_offset value =
    if ec_readonly then ram else update ram (u16 ecram_offset) (u8 value)
