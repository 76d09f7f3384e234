-- ===== src/Encoding/Checksum.antt =====
-- The checksum of server/encoding/encoding.go: hash/crc32 with the table of CRC32Polynomial.
-- The table's entries are computed where they are used.
use Prim.Native.Nat.{bit_xor}
use stor.Base.{ℕ, zero, suc, ◌-◌, ◌/◌, ◌%◌, ◌^◌, ◌<◌, Bytes, [], ◌∷◌, arith, ◌==◌, if◌then◌else◌}

abbrev pub crc32_polynomial : ℕ
crc32_polynomial = 0xD5828281

-- One round of the loop that fills the table.
unfoldable pub crc_round : ℕ → ℕ
crc_round crc = if crc % 2 == 1 then bit_xor (crc / 2) crc32_polynomial else crc / 2

abbrev pub crc_rounds : ℕ → ℕ → ℕ
crc_rounds zero crc = crc
crc_rounds (suc n) crc = crc_rounds n (crc_round crc)

-- The entry of the table at a byte.
unfoldable pub crc_entry : ℕ → ℕ
unfolding crc_round
crc_entry i = crc_rounds 8 i

unfoldable pub crc_step : ℕ → ℕ → ℕ
unfolding crc_entry
crc_step crc v = bit_xor (crc_entry (bit_xor (crc % 256) v)) (crc / 256)

unfoldable pub crc_update : ℕ → Bytes → ℕ
unfolding crc_step
crc_update crc [] = crc
crc_update crc (v ∷ p) = crc_update (crc_step crc v) p

-- ^crc on a uint32
unfoldable pub complement32 : ℕ → ℕ
complement32 crc = 2 ^ 32 - 1 - crc

-- crc32.Checksum(data, crc32TablePolynomial)
unfoldable pub checksum : Bytes → ℕ
unfolding crc_update complement32
checksum blob = complement32 (crc_update (complement32 0) blob)

pub checksum-lt : (blob : Bytes) → checksum blob < 2 ^ 32
unfolding checksum
checksum-lt blob = omega arith
