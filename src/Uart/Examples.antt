-- ===== src/Uart/Examples.antt =====
-- A UART that is busy for some ticks, and the theorems about src/drivers/sifive_uart0.c at it.
use freedom_metal.Prelude.{
  ℕ, zero, suc, ◌-◌, ◌+◌, ◌*◌, ◌%◌, ◌^◌, ◌≤◌, ◌<◌, ◌≡◌, ◌≢◌, refl, sym, ap, ◌∙◌, true, none, some,
  [], ◌∷◌, ◌==◌, if◌then◌else◌, arith, min,
}
use freedom_metal.Prelude.Machine.{Registers}
use freedom_metal.Clock.{null, MetalClock, Heap, set_rate_hz}
use freedom_metal.Clock.Lists.{IsList}
use freedom_metal.Clock.Order.{Implements}
use freedom_metal.Uart.{
  Hardware, Reg, txdata, rxdata, txctrl, rxctrl, ie, ip, div, Uart, txfull, putc, txready,
  set_tx_watermark, get_tx_watermark,
}
use freedom_metal.Uart.Api.{Places, pre_call, post_call}
use freedom_metal.Uart.Baud.{IsUart, holds}
use freedom_metal.Uart.Rate.{Drains, machine, set_rate_hz-keeps_baud}
use freedom_metal.Uart.Wait.{ticks, putc-ends}

abbrev code : Reg → ℕ
code txdata = 0
code rxdata = 1
code txctrl = 2
code rxctrl = 3
code ie = 4
code ip = 5
code div = 6

abbrev decode : ℕ → Reg
decode zero = txdata
decode (suc zero) = rxdata
decode (suc (suc zero)) = txctrl
decode (suc (suc (suc zero))) = rxctrl
decode (suc (suc (suc (suc zero)))) = ie
decode (suc (suc (suc (suc (suc zero))))) = ip
decode (suc (suc (suc (suc (suc (suc n)))))) = div

decode-code : (r : Reg) → decode (code r) ≡ r
decode-code txdata = refl
decode-code rxdata = refl
decode-code txctrl = refl
decode-code rxctrl = refl
decode-code ie = refl
decode-code ip = refl
decode-code div = refl

code-apart : (a b : Reg) → a ≢ b → code b ≢ code a
code-apart a b apart = λ e. apart (sym (decode-code a) ∙ ap decode (sym e) ∙ decode-code b)

-- The ticks for which the queue is full, 3 at most after the first, and the words that the registers hold.
abbrev Words : Type 0
Words = ℕ × (ℕ → ℕ)

abbrev read : Words → Reg → ℕ
read (busy, f) txdata = if busy == 0 then 0 else txfull
read (busy, f) rxdata = f 1 % 2 ^ 32
read (busy, f) txctrl = f 2 % 2 ^ 32
read (busy, f) rxctrl = f 3 % 2 ^ 32
read (busy, f) ie = f 4 % 2 ^ 32
read (busy, f) ip = if busy == 0 then 1 else 0
read (busy, f) div = f 6 % 2 ^ 32

abbrev words : Registers Reg
words = record {
  State = Words;
  read = read;
  write = λ s a v. (s.0, λ n. if n == code a then v else s.1 n);
}

abbrev uart0 : Hardware
uart0 = record { regs = words; tick = λ s. (min s.0 3 - 1, s.1); after_receive = λ s. s }

read-lt : (s : Words) (r : Reg) → read s r < 2 ^ 32
read-lt s txdata = ground arith
read-lt s rxdata = omega arith
read-lt s txctrl = omega arith
read-lt s rxctrl = omega arith
read-lt s ie = omega arith
read-lt s ip = ground arith
read-lt s div = omega arith

read_held : (s : Words) (r : Reg) → holds r ≡ true → read s r ≡ s.1 (code r) % 2 ^ 32
read_held s txdata h = absurd (cc)
read_held s rxdata h = absurd (cc)
read_held s txctrl h = refl
read_held s rxctrl h = refl
read_held s ie h = refl
read_held s ip h = absurd (cc)
read_held s div h = refl

uart0-IsUart : IsUart uart0
uart0-IsUart = record {
  back = λ s r v h fits. read_held (words.write s r v) r h ∙ ground (arith, fits);
  other = λ s a b v apart h.
      read_held (words.write s a v) b h
      ∙ ground (arith, code-apart a b apart)
      ∙ sym (read_held s b h);
  ticked = λ s r h. read_held (min s.0 3 - 1, s.1) r h ∙ sym (read_held s r h);
  fits = read-lt;
}

-- Busy for two ticks, with 5 as its watermarks, at 115200 baud.
abbrev board : Uart uart0
board = record { baud_rate = 115200; io = (2, λ n. 5 * 2 ^ 16) }

-- Asking for the watermark 2 where it is 5 sets 7.
watermark_seven : get_tx_watermark uart0 (set_tx_watermark uart0 2 board) ≡ 7
unfolding get_tx_watermark set_tx_watermark
watermark_seven = refl

two_ticks : txready uart0 (ticks uart0 2 board.io) ≡ 0
unfolding ticks txready
two_ticks = refl

putc-ends_example :
    (k : ℕ) × (k ≤ 2)
    × (putc uart0 3 65 board
        ≡ some (record board { io = words.write (ticks uart0 k board.io) txdata 65 }))
    × (txready uart0 (ticks uart0 k board.io) ≡ 0)
    × ((i : ℕ) → i < k → txready uart0 (ticks uart0 i board.io) ≡ 1)
putc-ends_example = putc-ends uart0 3 2 65 board (omega arith) two_ticks

drains : Drains uart0 4
unfolding ticks
drains s = (3, omega arith, ground arith)

-- The UART's two nodes.
abbrev at : Places
at = record { guart = 64; pre_node = 72; post_node = 96 }

-- The nodes once they are registered.
abbrev listed : Heap
listed a =
    if a == 72
    then some (record { callback = 1; priv = 64; next = null })
    else if a == 96
    then some (record { callback = 2; priv = 64; next = null })
    else none

abbrev running : MetalClock
running = record { pre_rate_change_callback = 72; post_rate_change_callback = 96 }

pre_listed : IsList listed 72 (pre_call at ∷ [])
unfolding IsList
pre_listed = (refl, λ e. absurd (omega (arith, e)), refl, null, refl, refl)

post_listed : IsList listed 96 (post_call at ∷ [])
unfolding IsList
post_listed = (refl, λ e. absurd (omega (arith, e)), refl, null, refl, refl)

running-Implements :
    Implements listed running (record { pre = pre_call at ∷ []; post = post_call at ∷ [] })
running-Implements = record {
  is_pre = pre_listed;
  is_post = post_listed;
  apart = λ a i. ground (arith, i);
}

-- From 16 MHz to what is asked for.
set_rate_hz-keeps_baud_example :
    (after : Uart uart0) × (set_rate_hz
        (machine uart0 4 (λ old hz. hz))
        2
        running
        32000000
        listed
        (some (board, 16000000))
      ≡ some (32000000, (running, listed, some (after, 32000000))))
    × (after.baud_rate ≡ 115200)
    × (115200 * (read after.io div + 1) ≤ 32000000)
    × (32000000 < 115200 * (read after.io div + 2))
set_rate_hz-keeps_baud_example =
    set_rate_hz-keeps_baud uart0 uart0-IsUart 4 2 (λ old hz. hz) at listed running 32000000 16000000
      board running-Implements (omega arith) drains (omega arith) (omega arith) (omega arith)
      (omega arith)
