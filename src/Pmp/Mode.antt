-- ===== src/Pmp/Mode.antt =====
-- enum metal_pmp_address_mode of metal/pmp.h.
use freedom_metal.Prelude.{ℕ}

abbrev pub off : ℕ
off = 0

abbrev pub tor : ℕ
tor = 1

abbrev pub na4 : ℕ
na4 = 2

abbrev pub napot : ℕ
napot = 3
