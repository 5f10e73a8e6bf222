-- ===== src/Clic/Dispatch.antt =====
-- Registering a handler with the controller of src/drivers/sifive_clic0.c, and the interrupt that calls it.
use freedom_metal.Prelude.{ℕ, ◌≤◌, ◌<◌, ◌≡◌, ◌≢◌, refl, true, false, some, ltb, ◌==◌, arith}
use freedom_metal.Interrupt.{selective_nonvector}
use freedom_metal.Cpu.{Platform, ok}
use freedom_metal.Cpu.Id.{id_csw}
use freedom_metal.Clic.Control.{
  Board, Clic, configure_get_vector_mode, refuses, register_sub, register, handler, set_exint,
}

module _ (platform : Platform) (board : Board platform) where
  open board use {num_subinterrupts}

  -- In the mode METAL_SELECTIVE_NONVECTOR_MODE, registering a handler with its data for an
  -- interrupt whose number is 12 or more and below the number of the controller's returns 0; the
  -- controller's handler then calls that handler with the interrupt's number and that data, and
  -- for any other interrupt what it called before.
  pub register_sub-handler :
      (id other priv : ℕ) (f : platform.Handler) (c : Clic platform board)
      → configure_get_vector_mode platform board c ≡ selective_nonvector
      → id_csw ≤ id
      → id < num_subinterrupts
      → other ≢ id
      → (after : Clic platform board) × (register platform board id (some f) priv c
          ≡ some (ok, after))
        × (handler platform board id after ≡ some (f, id, priv))
        × (handler platform board other after ≡ handler platform board other c)
  unfolding register refuses register_sub handler
  register_sub-handler id other priv f c mode above below apart =
      let own : ltb id id_csw ≡ false = ground arith in
      let inside : ltb id num_subinterrupts ≡ true = ground arith in
      let same : (id == id) ≡ true = ground arith in
      let different : (other == id) ≡ false = ground arith in
      (
        set_exint platform board id
            (record (c.metal_exint_table id) { handler = some f; exint_data = priv }) c,
        rw (mode, register, refuses, own, inside) refl,
        rw (inside, same) refl,
        rw (different) refl,
      )
