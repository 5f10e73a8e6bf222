-- ===== src/Cpu/Id.antt =====
-- metal_interrupt_id_e of metal/drivers/riscv_cpu.h.
use freedom_metal.Prelude.{ℕ, Bool, ◌&&◌, ◌||◌, ltb, leb, ◌==◌}

abbrev pub id_base : ℕ
id_base = 0

abbrev pub id_sw : ℕ
id_sw = 3

abbrev pub id_tmr : ℕ
id_tmr = 7

abbrev pub id_ext : ℕ
id_ext = 11

abbrev pub id_csw : ℕ
id_csw = 12

abbrev pub id_beu : ℕ
id_beu = 128

-- METAL_INTERRUPT_ID_LC0 to METAL_INTERRUPT_ID_LC15
unfoldable pub is_local : ℕ → Bool
is_local id = leb 16 id && ltb id 32

-- __metal_valid_interrupt_id
unfoldable pub valid_interrupt_id : ℕ → Bool
valid_interrupt_id id = id == id_sw || id == id_tmr || id == id_ext || is_local id || id == id_beu
