-- ===== src/Ec/Ident.antt =====
-- The chip id and the chip version, read byte by byte.
use sc_control.Base.{ℕ, ◌+◌, ◌*◌, u16}
use sc_control.Model.Config.{ModelConfig}
use sc_control.Ec.{Ram, ecram_read}

-- `read_ec_id`
pub read_ec_id : Ram → ModelConfig → ℕ
read_ec_id ram model =
    let id1 = ecram_read ram model.registers.echipid1 in
    let id2 = ecram_read ram model.registers.echipid2 in u16 (id1 * 256 + id2)

-- `read_ec_version`
pub read_ec_version : Ram → ModelConfig → ℕ
read_ec_version ram model =
    let vers = ecram_read ram model.registers.echipver in
    let debug = ecram_read ram model.registers.ecdebug in u16 (vers * 256 + debug)
