-- ===== src/Remapper/Examples.antt =====
-- A remapper that takes a write only after the key, and that a flush disables, and the theorems about
-- src/drivers/sifive_remapper2.c at it.
use freedom_metal.Prelude.{
  ℕ, zero, suc, ◌+◌, ◌*◌, ◌/◌, ◌%◌, ◌^◌, ◌<◌, ◌≡◌, ◌≢◌, ◌∙◌, refl, sym, ap, Bool, true, false, some,
  List, [], ◌∷◌, ◌==◌, ◌&&◌, if◌then◌else◌, arith, Bool-cases, inl, inr,
}
use freedom_metal.Prelude.Machine.{Registers}
use freedom_metal.Remapper.{
  Reg, key, flush_reg, version, entries, valid, from_reg, to_reg, enable_key, Entry, enable_remaps,
  set_remaps, get_from, get_to,
}
use freedom_metal.Remapper.Batch.{is_enabled, enable_each, enable_remaps-each, has}
use freedom_metal.Remapper.Entries.{set_remaps-latest, last_for, low_word}
use freedom_metal.Remapper.Valid.{IsRemapper, holds, harmless}

abbrev code : Reg → ℕ
code key = 0
code flush_reg = 1
code version = 2
code entries = 3
code (valid i) = suc (suc (suc (suc (i * 3))))
code (from_reg i) = suc (suc (suc (suc (suc (i * 3)))))
code (to_reg i) = suc (suc (suc (suc (suc (suc (i * 3))))))

abbrev of_entry : ℕ → ℕ → Reg
of_entry zero i = valid i
of_entry (suc zero) i = from_reg i
of_entry (suc (suc n)) i = to_reg i

abbrev decode : ℕ → Reg
decode zero = key
decode (suc zero) = flush_reg
decode (suc (suc zero)) = version
decode (suc (suc (suc zero))) = entries
decode (suc (suc (suc (suc n)))) = of_entry (n % 3) (n / 3)

decode-entry : (n k i : ℕ) → n ≡ k + i * 3 → k < 3 → of_entry (n % 3) (n / 3) ≡ of_entry k i
decode-entry n k i e small =
    let third : n % 3 ≡ k = omega (arith, e, small) in
    let whole : n / 3 ≡ i = omega (arith, e, small) in rw (third, whole) refl

decode-code : (r : Reg) → decode (code r) ≡ r
decode-code key = refl
decode-code flush_reg = refl
decode-code version = refl
decode-code entries = refl
decode-code (valid i) = decode-entry (i * 3) 0 i (omega arith) (omega arith)
decode-code (from_reg i) = decode-entry (suc (i * 3)) 1 i (omega arith) (omega arith)
decode-code (to_reg i) = decode-entry (suc (suc (i * 3))) 2 i (omega arith) (omega arith)

code-apart : (a b : Reg) → a ≢ b → code b ≢ code a
code-apart a b apart = λ e. apart (sym (decode-code a) ∙ ap decode (sym e) ∙ decode-code b)

-- Whether the key was the last to be written, and the words.
record Wires : Type 0 where
  armed : Bool
  words : ℕ → ℕ

abbrev changed : (ℕ → ℕ) → ℕ → ℕ → ℕ → ℕ
changed f k v n = if n == k then v else f n

abbrev put_reg : Wires → Reg → ℕ → Wires
put_reg s key v = record { armed = v == enable_key; words = changed s.words 0 v }
put_reg s flush_reg v = record {
  armed = false;
  words = λ n. if (n % 3 == 1) && s.armed then 0 else s.words n;
}
put_reg s version v = record s { armed = false }
put_reg s entries v = record s { armed = false }
put_reg s r v = record {
  armed = false;
  words = if s.armed then changed s.words (code r) v else s.words;
}

abbrev wires : Registers Reg
wires = record { State = Wires; read = λ s r. s.words (code r) % 2 ^ 32; write = put_reg }

-- A write to a register of an entry.
put_words :
    (s : Wires) (r : Reg) (v : ℕ)
    → holds r ≡ true
    → (put_reg s r v).words ≡ (if s.armed then changed s.words (code r) v else s.words)
put_words s key v h = absurd (cc)
put_words s flush_reg v h = absurd (cc)
put_words s version v h = absurd (cc)
put_words s entries v h = absurd (cc)
put_words s (valid i) v h = refl
put_words s (from_reg i) v h = refl
put_words s (to_reg i) v h = refl

by_key :
    (s : Wires) (a b : Reg) (v : ℕ)
    → code b ≢ code a
    → (if s.armed then changed s.words (code a) v else s.words) (code b) ≡ s.words (code b)
by_key s a b v h = elim (Bool-cases (s.armed)) [
  | inl on ↦ rw (on) (ground (arith, h))
  | inr off ↦ rw (off) refl
]

kept :
    (s : Wires) (a b : Reg) (v : ℕ)
    → code b ≢ code a
    → harmless a ≡ true
    → (put_reg s a v).words (code b) ≡ s.words (code b)
kept s key b v h ok = ground (arith, h)
kept s flush_reg b v h ok = absurd (cc)
kept s version b v h ok = absurd (cc)
kept s entries b v h ok = absurd (cc)
kept s (valid i) b v h ok = by_key s (valid i) b v h
kept s (from_reg i) b v h ok = by_key s (from_reg i) b v h
kept s (to_reg i) b v h ok = by_key s (to_reg i) b v h

wires-IsRemapper : IsRemapper wires
wires-IsRemapper = record {
  Armed = λ s. s.armed ≡ true;
  arms = λ s. refl;
  back = λ s r v armed held fits.
      ap (λ (f : ℕ → ℕ). f (code r) % 2 ^ 32) (put_words s r v held)
      ∙ rw (armed) (ground (arith, fits));
  other =
      λ s a b v apart ok held. ap (λ (x : ℕ). x % 2 ^ 32) (kept s a b v (code-apart a b apart) ok);
  fits = λ s r. omega arith;
}

abbrev reset : Wires
reset = record { armed = false; words = λ n. 0 }

enable_remaps-each_example :
    (after : Wires) × (enable_remaps wires (3 ∷ 40 ∷ []) reset ≡ some (0, after))
    × (is_enabled wires after 40 ≡ is_enabled wires (enable_each wires (3 ∷ 40 ∷ []) reset) 40)
    × (is_enabled wires after 40 ≡ (if has 40 (3 ∷ 40 ∷ []) then 1 else is_enabled wires reset 40))
enable_remaps-each_example =
    enable_remaps-each wires wires-IsRemapper (3 ∷ 40 ∷ []) 40 reset refl (omega arith)

-- The second is set twice, and its address is of 33 bits.
abbrev three : List Entry
three =
    record { idx = 1; from_addr = 0x1000; to_addr = 0x80000000 }
    ∷ record { idx = 2; from_addr = 0x2000; to_addr = 0x80001000 }
    ∷ record { idx = 2; from_addr = 0x100003000; to_addr = 0x80002000 }
    ∷ []

set_remaps-latest_example :
    ((set_remaps wires three reset).0 ≡ 0)
    × (get_from wires 2 (set_remaps wires three reset).1
        ≡ low_word (λ e. e.from_addr) (last_for 2 three) (get_from wires 2 reset))
    × (get_to wires 2 (set_remaps wires three reset).1
        ≡ low_word (λ e. e.to_addr) (last_for 2 three) (get_to wires 2 reset))
set_remaps-latest_example = set_remaps-latest wires wires-IsRemapper three 2 reset
