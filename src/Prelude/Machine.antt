-- ===== src/Prelude/Machine.antt =====
-- The hardware below the drivers, as a parameter: registers that are read and written, with what
-- the architecture documents of them; and C's conversions between machine integers.
use Prim.Native.Nat.{ℕ, ◌+◌, ◌-◌, ◌*◌, ◌%◌, ◌^◌, ◌<◌, bit_and, bit_or}
use mathlib.Core.Path.{◌≡◌, ap, ◌∙◌}
use mathlib.Core.Logic.{◌≢◌}
use mathlib.Core.Option.{Option, none, some}
use freedom_metal.Prelude.Tests.{ltb, if◌then◌else◌}
use freedom_metal.Prelude.Bits.{complement}

-- Registers named by `A` (the CSRs of a hart, or addresses), whose reads have no effect.
pub record Registers (A : Type 0) : Type 1 where
  pub State : Type 0
  pub read : State → A → ℕ
  pub write : State → A → ℕ → State

-- What the drivers rely on: a value that the hardware accepts at that place reads back, and a
-- write changes no other register. WARL fields and write-protected registers accept less.
pub record IsBank {A : Type 0} (bank : Registers A) (Accepts : bank.State → A → ℕ → Type 0)
    : Type 0 where
  pub read_back :
      (s : bank.State) (a : A) (v : ℕ) → Accepts s a v → bank.read (bank.write s a v) a ≡ v
  pub read_other :
      (s : bank.State) (a b : A) (v : ℕ) → a ≢ b → bank.read (bank.write s a v) b ≡ bank.read s b

-- Registers of `w` bits: what is read fits.
abbrev pub Fits : {A : Type 0} → Registers A → ℕ → Type 0
Fits {A} bank w = (s : bank.State) (a : A) → bank.read s a < 2 ^ w

module _ {A : Type 0} (bank : Registers A) where
  -- `csrs`, and `reg |= v`
  abbrev pub set_bits : bank.State → A → ℕ → bank.State
  set_bits s a v = bank.write s a (bit_or (bank.read s a) v)

  -- `csrc`, and `reg &= ~v`, in registers of `w` bits
  abbrev pub clear_bits : ℕ → bank.State → A → ℕ → bank.State
  clear_bits w s a v = bank.write s a (bit_and (bank.read s a) (complement w v))

-- A read-modify-write: clear the bits of `m`, then set those of `v`, in a register of `w` bits.
module _ {A : Type 0} {bank : Registers A} {Accepts : bank.State → A → ℕ → Type 0}
    (laws : IsBank bank Accepts) (w : ℕ) (s : bank.State) (a : A) (m v : ℕ) where
  abbrev pub replaced : bank.State
  replaced = set_bits bank (clear_bits bank w s a m) a v

  -- The hardware accepts both writes.
  abbrev pub AcceptsBoth : Type 0
  AcceptsBoth =
      Accepts s a (bit_and (bank.read s a) (complement w m))
      × Accepts (clear_bits bank w s a m) a (bit_or (bit_and (bank.read s a) (complement w m)) v)

  pub replaced-read :
      AcceptsBoth → bank.read replaced a ≡ bit_or (bit_and (bank.read s a) (complement w m)) v
  replaced-read ok =
      let between : bank.State = clear_bits bank w s a m in
      ap (λ (x : ℕ). bank.read (bank.write between a (bit_or x v)) a) (laws.read_back s a _ ok.0)
      ∙ laws.read_back between a _ ok.1

  pub replaced-read_other : (b : A) → a ≢ b → bank.read replaced b ≡ bank.read s b
  replaced-read_other b ne =
      laws.read_other (clear_bits bank w s a m) a b _ ne ∙ laws.read_other s a b _ ne

-- `v << k` in a 32-bit `int`, as its bit pattern. A shift by 32 or more is undefined.
abbrev pub shift_int : ℕ → ℕ → Option ℕ
shift_int v k = if ltb k 32 then some (v * 2 ^ k % 2 ^ 32) else none

-- The conversion of an `int` to an unsigned word of `w` bits extends the sign.
abbrev pub int_to_size : ℕ → ℕ → ℕ
int_to_size w i = if ltb i (2 ^ 31) then i else i + (2 ^ w - 2 ^ 32)
