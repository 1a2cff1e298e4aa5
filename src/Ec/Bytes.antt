-- ===== src/Ec/Bytes.antt =====
-- Every cell of the EC RAM is a byte, and the writes of the driver keep it one.
use sc_control.Base.{ℕ, ◌<◌, Bool, true, false, List, [], ◌∷◌, arith}
use sc_control.Ec.{Ram, ecram_read, ecram_write}
use sc_control.Ec.Writes.{write_all}

pub record IsRam (ram : Ram) : Type 0 where
  pub cell_byte : (a : ℕ) → ram a < 256

pub ecram_read-lt : {ram : Ram} (a : ℕ) → IsRam ram → ecram_read ram a < 256
ecram_read-lt a h = h.cell_byte _

pub ecram_write-IsRam :
    {ram : Ram} (ro : Bool) (a v : ℕ) → IsRam ram → IsRam (ecram_write ro ram a v)
ecram_write-IsRam true a v h = h
ecram_write-IsRam {ram} false a v h = record {
  cell_byte = λ b. let old = h.cell_byte b in ground arith;
}

pub write_all-IsRam :
    {ram : Ram} (ro : Bool) (ws : List (ℕ × ℕ)) → IsRam ram → IsRam (write_all ro ram ws)
unfolding write_all
write_all-IsRam ro [] h = h
write_all-IsRam {ram = ram} ro ((a, v) ∷ ws) h =
    write_all-IsRam {ram = ecram_write ro ram a v} ro ws (ecram_write-IsRam ro a v h)
