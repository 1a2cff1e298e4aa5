-- ===== src/Ec/Portio.antt =====
-- Access to the EC RAM by the index and data ports (`ecram_portio_read`, `ecram_portio_write`).
use sc_control.Base.{ℕ, ◌+◌, ◌*◌, ◌/◌, ◌≡◌, false, arith, ◌==◌, if◌then◌else◌, u8, u16}
use sc_control.Ec.{Ram, update, ecram_read, ecram_write}

-- The kernel's port input and output over the state `S` of the machine.
pub record PortBus (S : Type 0) : Type 0 where
  pub outb : ℕ → ℕ → S → S
  pub inb : ℕ → S → ℕ × S

abbrev addr_port : ℕ
addr_port = 0x4e

abbrev data_port : ℕ
data_port = 0x4f

module _ {S : Type 0} (bus : PortBus S) where
  open bus use {outb, inb}

  -- One register of the configuration space: its index to the address port, its value to the data port.
  abbrev select : ℕ → S → S
  select index s = outb addr_port index s

  abbrev put : ℕ → S → S
  put value s = outb data_port value s

  -- The part of the two routines that sets the RAM address and selects the data register.
  set_address : ℕ → S → S
  set_address offset s =
      let s1 = put 0x11 (select 0x2e s) in
      let s2 = put (u8 (offset / 256)) (select 0x2f s1) in
      let s3 = put 0x10 (select 0x2e s2) in
      let s4 = put (u8 offset) (select 0x2f s3) in
      let s5 = put 0x12 (select 0x2e s4) in select 0x2f s5

  -- `ecram_portio_read`
  pub ecram_portio_read : ℕ → S → ℕ × S
  unfolding set_address
  ecram_portio_read offset s = inb data_port (set_address (u16 offset) s)

  -- `ecram_portio_write`
  pub ecram_portio_write : ℕ → ℕ → S → S
  unfolding set_address
  ecram_portio_write offset value s = put (u8 value) (set_address (u16 offset) s)

  -- What the datasheet of the chip says of each access: the address port holds the index; behind
  -- index 0x2e lies the selector, behind index 0x2f the register that the selector names (0x11 and
  -- 0x10 the address bytes, 0x12 the byte at that address).
  pub record Datasheet : Type 0 where
    pub index : S → ℕ
    pub selector : S → ℕ
    pub high : S → ℕ
    pub low : S → ℕ
    pub ram : S → Ram
    pub index-select : (v : ℕ) (s : S) → index (outb 0x4e v s) ≡ v
    pub selector-select : (v : ℕ) (s : S) → selector (outb 0x4e v s) ≡ selector s
    pub high-select : (v : ℕ) (s : S) → high (outb 0x4e v s) ≡ high s
    pub low-select : (v : ℕ) (s : S) → low (outb 0x4e v s) ≡ low s
    pub ram-select : (v : ℕ) (s : S) → ram (outb 0x4e v s) ≡ ram s
    pub selector-put :
        (v : ℕ) (s : S) → selector (outb 0x4f v s) ≡ (if index s == 0x2e then v else selector s)
    pub high-put :
        (v : ℕ) (s : S)
        → high (outb 0x4f v s)
          ≡ (if index s == 0x2f then if selector s == 0x11 then v else high s else high s)
    pub low-put :
        (v : ℕ) (s : S)
        → low (outb 0x4f v s)
          ≡ (if index s == 0x2f then if selector s == 0x10 then v else low s else low s)
    pub ram-put :
        (v : ℕ) (s : S)
        → ram (outb 0x4f v s) ≡ (
            if index s == 0x2f
            then if selector s == 0x12 then update (ram s) (high s * 256 + low s) v else ram s
            else ram s)
    pub value-get :
        (s : S) → index s ≡ 0x2f → selector s ≡ 0x12 → (inb 0x4f s).0 ≡ ram s (high s * 256 + low s)
    pub ram-get : (s : S) → ram (inb 0x4f s).1 ≡ ram s

  module _ (d : Datasheet) where
    open d use {
      index, selector, high, low, ram, index-select, selector-select, high-select, low-select,
      ram-select, selector-put, high-put, low-put, ram-put, value-get, ram-get,
    }

    -- After the address sequence the data port stands for the addressed byte, and the RAM is as it was.
    set_address_lem :
        (offset : ℕ) (s : S)
        → let t = set_address offset s in
          (index t ≡ 0x2f)
          × (selector t ≡ 0x12)
          × (high t ≡ u8 (offset / 256))
          × (low t ≡ u8 offset)
          × (ram t ≡ ram s)
    unfolding set_address
    set_address_lem offset s = (
      simp (index-select),
      simp (index-select, selector-select, selector-put),
      simp (index-select, selector-select, selector-put, high-select, high-put),
      simp (index-select, selector-select, selector-put, low-select, low-put),
      simp (index-select, selector-select, selector-put, ram-select, ram-put),
    )

    offset_bytes : (offset : ℕ) → u8 (u16 offset / 256) * 256 + u8 (u16 offset) ≡ u16 offset
    offset_bytes offset = omega arith

    -- For a chip that keeps the datasheet, `ecram_portio_read` returns the byte of the RAM at the
    -- offset and leaves the RAM as it was, and `ecram_portio_write` acts as a write of that one byte.
    pub portio_refines :
        (offset value : ℕ) (s : S)
        → ((ecram_portio_read offset s).0 ≡ ecram_read (ram s) offset)
          × (ram (ecram_portio_read offset s).1 ≡ ram s)
          × (ram (ecram_portio_write offset value s) ≡ ecram_write false (ram s) offset value)
    unfolding ecram_portio_read ecram_portio_write
    portio_refines offset value s =
        let t = set_address (u16 offset) s in
        let h = set_address_lem (u16 offset) s in
        (
          rw (value-get t h.0 h.1, h.2, h.3, offset_bytes offset, h.4),
          rw (ram-get t, h.4),
          rw (ram-put (u8 value) t, h.0, h.1, h.2, h.3, offset_bytes offset, h.4),
        )
