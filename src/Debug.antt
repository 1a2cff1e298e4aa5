-- ===== src/Debug.antt =====
-- The memory of the EC in debugfs: through the ports, `debugfs_ecmemory_show`, and through the mapping,
-- `debugfs_ecmemoryram_show` with `ecram_memoryio_read`.
use sc_control.Base.{
  ℕ, zero, suc, ◌+◌, ◌-◌, ◌<◌, ◌≤◌, ◌≡◌, refl, ◌∙◌, ap, false, ◌||◌, ltb, leb, ◌==◌, if◌then◌else◌,
  List, [], ◌∷◌, length, u16, arith,
}
use sc_control.Errno.{Result, ok, err, eio, eacces}
use sc_control.Ec.{Ram, ecram_read}
use sc_control.Model.Config.{ModelConfig}

-- `struct ecram_memoryio`: the mapped bytes by their index, the address of the first in the EC, and the
-- number of bytes.
pub record MemoryIo : Type 0 where
  pub virtual_start : ℕ → ℕ
  pub physical_ec_start : ℕ
  pub size : ℕ

-- `ecram_memoryio_read`, at an offset of 16 bits
unfoldable pub ecram_memoryio_read : MemoryIo → ℕ → Result ℕ
ecram_memoryio_read m ec_offset =
    if ltb ec_offset m.physical_ec_start || leb m.size (ec_offset - m.physical_ec_start)
    then err eio
    else ok (m.virtual_start (ec_offset - m.physical_ec_start))

-- `ecram_memoryio_write`
unfoldable pub ecram_memoryio_write : MemoryIo → ℕ → ℕ → Result MemoryIo
ecram_memoryio_write m ec_offset value =
    if ltb ec_offset m.physical_ec_start || leb m.size (ec_offset - m.physical_ec_start)
    then err eio
    else ok (record m {
      virtual_start =
          λ i. if i == ec_offset - m.physical_ec_start then value else m.virtual_start i;
    })

-- The loop of `debugfs_ecmemory_show` over the offsets that are left.
unfoldable pub ecmemory_from : Ram → ℕ → ℕ → ℕ → List ℕ
ecmemory_from ram start zero offset = []
ecmemory_from ram start (suc n) offset =
    ecram_read ram (start + offset) ∷ ecmemory_from ram start n (offset + 1)

-- `debugfs_ecmemory_show`: the bytes that it prints
unfoldable pub debugfs_ecmemory_show : Ram → ModelConfig → List ℕ
unfolding ecmemory_from
debugfs_ecmemory_show ram conf =
    ecmemory_from ram conf.memoryio_physical_ec_start conf.memoryio_size 0

-- A byte before the rest; any error becomes EACCES.
unfoldable pub byte_then : Result ℕ → Result (List ℕ) → Result (List ℕ)
byte_then (ok b) (ok bytes) = ok (b ∷ bytes)
byte_then (ok b) (err e) = err e
byte_then (err _) rest = err eacces

-- The loop of `debugfs_ecmemoryram_show`; the offset is cut to 16 bits for the read.
unfoldable pub ecmemoryram_from : MemoryIo → ℕ → ℕ → Result (List ℕ)
unfolding byte_then
ecmemoryram_from m zero offset = ok []
ecmemoryram_from m (suc n) offset =
    byte_then (ecram_memoryio_read m (u16 offset)) (ecmemoryram_from m n (offset + 1))

-- `debugfs_ecmemoryram_show`
unfoldable pub debugfs_ecmemoryram_show : MemoryIo → ModelConfig → Result (List ℕ)
unfolding ecmemoryram_from
debugfs_ecmemoryram_show m conf = ecmemoryram_from m conf.ramio_size 0

below_end : (i s n : ℕ) → s ≡ 0 → i < n → (ltb i s || leb n (i - s)) ≡ false
below_end i s n z h = ground arith

unshifted : (i s : ℕ) → s ≡ 0 → i - s ≡ i
unshifted i s z = omega arith

in_range :
    (m : MemoryIo) (i : ℕ)
    → m.physical_ec_start ≡ 0
    → i < m.size
    → ecram_memoryio_read m i ≡ ok (m.virtual_start i)
unfolding ecram_memoryio_read
in_range m i z h =
    ap (λ b. if b then err eio else ok (m.virtual_start (i - m.physical_ec_start)))
      (below_end i m.physical_ec_start m.size z h)
    ∙ ap (λ j. ok (m.virtual_start j)) (unshifted i m.physical_ec_start z)

-- The mapped bytes at `n` offsets of 16 bits in turn.
abbrev pub image : (ℕ → ℕ) → ℕ → ℕ → List ℕ
image memory zero offset = []
image memory (suc n) offset = memory (u16 offset) ∷ image memory n (offset + 1)

length-image : (memory : ℕ → ℕ) (n offset : ℕ) → length (image memory n offset) ≡ n
length-image memory zero offset = refl
length-image memory (suc n) offset = ap suc (length-image memory n (offset + 1))

from_lem :
    (m : MemoryIo) (n offset : ℕ)
    → m.physical_ec_start ≡ 0
    → offset + n ≤ m.size
    → ecmemoryram_from m n offset ≡ ok (image m.virtual_start n offset)
unfolding ecmemoryram_from byte_then
from_lem m zero offset z h = refl
from_lem m (suc n) offset z h =
    ap (λ r. byte_then r (ecmemoryram_from m n (offset + 1)))
      (in_range m (u16 offset) z (omega arith))
    ∙ ap (byte_then (ok (m.virtual_start (u16 offset)))) (from_lem m n (offset + 1) z (omega arith))

-- On a mapping as the probe makes it, from offset 0 and of the model's size, the dump of the mapped
-- memory ends without an error after exactly that many bytes, each read inside the mapping, at its offset
-- cut to 16 bits.
pub ecmemoryram_complete :
    (m : MemoryIo) (conf : ModelConfig)
    → m.physical_ec_start ≡ 0
    → m.size ≡ conf.ramio_size
    → (debugfs_ecmemoryram_show m conf ≡ ok (image m.virtual_start conf.ramio_size 0))
      × (length (image m.virtual_start conf.ramio_size 0) ≡ conf.ramio_size)
unfolding debugfs_ecmemoryram_show
ecmemoryram_complete m conf z e =
    (from_lem m conf.ramio_size 0 z (omega arith), length-image m.virtual_start conf.ramio_size 0)
