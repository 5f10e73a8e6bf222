-- ===== src/Prelude/Bits.antt =====
-- The bits of a word, one by one: what `|`, `&`, `~`, `1 << n` and shifts do to each of them.
use Prim.Native.Nat.{ℕ, zero, suc, ◌+◌, ◌-◌, ◌*◌, ◌/◌, ◌%◌, ◌^◌, ◌≤◌, ◌<◌, min, max}
use Prim.Native.Nat.{bit_and, bit_or}
use mathlib.Core.Path.{◌≡◌, refl, ap, sym, ◌∙◌}
use native.Mathlib.Nat.{pow-suc, one-le-pow}
use native.Mathlib.Nat.{
  div-div-eq-div-mul, div-add-mod, mod-lt, mod-eq_of_lt, add-mul-mod_self_right,
}
use native.Mathlib.Omega.{arith}
use freedom_metal.Prelude.Digits.{and_by_halves, or_by_halves}
use freedom_metal.Prelude.Tests.{ltb, ◌==◌, if◌then◌else◌}

-- `(x >> k) & 1`
pub bit : ℕ → ℕ → ℕ
bit x zero = x % 2
bit x (suc k) = bit (x / 2) k

-- `~x` in a word of `w` bits
abbrev pub complement : ℕ → ℕ → ℕ
complement w x = 2 ^ w - 1 - x

pub bit-lt : (x k : ℕ) → bit x k < 2
unfolding bit
bit-lt x zero = omega arith
bit-lt x (suc k) = bit-lt (x / 2) k

pub bit-or : (a b k : ℕ) → bit (bit_or a b) k ≡ max (bit a k) (bit b k)
unfolding bit
bit-or a b zero = omega (arith, or_by_halves a b)
bit-or a b (suc k) =
    let halved : bit_or a b / 2 ≡ bit_or (a / 2) (b / 2) = omega (arith, or_by_halves a b) in
    rw halved (bit-or (a / 2) (b / 2) k)

pub bit-and : (a b k : ℕ) → bit (bit_and a b) k ≡ min (bit a k) (bit b k)
unfolding bit
bit-and a b zero = omega (arith, and_by_halves a b)
bit-and a b (suc k) =
    let halved : bit_and a b / 2 ≡ bit_and (a / 2) (b / 2) = omega (arith, and_by_halves a b) in
    rw halved (bit-and (a / 2) (b / 2) k)

pub bit-of_zero : (k : ℕ) → bit 0 k ≡ 0
unfolding bit
bit-of_zero zero = refl
bit-of_zero (suc k) = bit-of_zero k

pub bit-two_pow : (n k : ℕ) → bit (2 ^ n) k ≡ (if k == n then 1 else 0)
unfolding bit
bit-two_pow zero zero = refl
bit-two_pow zero (suc k) = bit-of_zero k ∙ ground arith
bit-two_pow (suc n) zero = ground (arith, pow-suc 2 n)
bit-two_pow (suc n) (suc k) =
    let halved : 2 ^ suc n / 2 ≡ 2 ^ n = omega (arith, pow-suc 2 n) in
    rw halved (bit-two_pow n k ∙ ground arith)

pub bit-complement : (w x k : ℕ) → x < 2 ^ w → k < w → bit (complement w x) k ≡ 1 - bit x k
unfolding bit
bit-complement zero x k fits inside = absurd (omega arith)
bit-complement (suc w) x zero fits inside = omega (arith, pow-suc 2 w)
bit-complement (suc w) x (suc k) fits inside =
    let halved : complement (suc w) x / 2 ≡ complement w (x / 2) = omega (arith, pow-suc 2 w) in
    rw halved (bit-complement w (x / 2) k (omega (arith, pow-suc 2 w)) (omega arith))

-- Words with the same bits are equal.
pub bit_ext : (w a b : ℕ) → a < 2 ^ w → b < 2 ^ w → ((k : ℕ) → k < w → bit a k ≡ bit b k) → a ≡ b
unfolding bit
bit_ext zero a b ha hb same = omega arith
bit_ext (suc w) a b ha hb same =
    let halves : a / 2 ≡ b / 2 =
      bit_ext w (a / 2) (b / 2) (omega (arith, pow-suc 2 w)) (omega (arith, pow-suc 2 w))
        (λ k h. same (suc k) (omega arith)) in
    let lowest : a % 2 ≡ b % 2 = same 0 (omega arith) in omega arith

lt-two_pow : (x : ℕ) → x < 2 ^ x
lt-two_pow zero = omega arith
lt-two_pow (suc x) = omega (arith, lt-two_pow x, pow-suc 2 x)

-- No bit of `x & 0` is set.
pub bit_and-zero : (x : ℕ) → bit_and x 0 ≡ 0
bit_and-zero x =
    let all : ℕ = bit_and x 0 in
    bit_ext all all 0 (lt-two_pow all) (omega (arith, lt-two_pow all))
      (λ k h. omega (arith, bit-and x 0 k, bit-of_zero k))

pub zero-bit_and : (x : ℕ) → bit_and 0 x ≡ 0
zero-bit_and x =
    let all : ℕ = bit_and 0 x in
    bit_ext all all 0 (lt-two_pow all) (omega (arith, lt-two_pow all))
      (λ k h. omega (arith, bit-and 0 x k, bit-of_zero k))

-- `|` and `&` stay within the word.
pub bit_or-lt : (w a b : ℕ) → a < 2 ^ w → b < 2 ^ w → bit_or a b < 2 ^ w
bit_or-lt zero a b ha hb =
    let za : a ≡ 0 = omega arith in let zb : b ≡ 0 = omega arith in rw (za, zb) (omega arith)
bit_or-lt (suc w) a b ha hb = omega (
  arith,
  or_by_halves a b,
  pow-suc 2 w,
  bit_or-lt w (a / 2) (b / 2) (omega (arith, pow-suc 2 w)) (omega (arith, pow-suc 2 w)),
)

pub bit_or-zero : (x : ℕ) → bit_or x 0 ≡ x
bit_or-zero x =
    let small : x < 2 ^ x = lt-two_pow x in
    bit_ext x (bit_or x 0) x (bit_or-lt x x 0 small (omega (arith, small))) small
      (λ k h. omega (arith, bit-or x 0 k, bit-of_zero k))

pub zero-bit_or : (x : ℕ) → bit_or 0 x ≡ x
zero-bit_or x =
    let small : x < 2 ^ x = lt-two_pow x in
    bit_ext x (bit_or 0 x) x (bit_or-lt x 0 x (omega (arith, small)) small) small
      (λ k h. omega (arith, bit-or 0 x k, bit-of_zero k))

pub bit_and-lt' : (w a b : ℕ) → b < 2 ^ w → bit_and a b < 2 ^ w
bit_and-lt' zero a b hb = let zb : b ≡ 0 = omega arith in rw zb (omega (arith, bit_and-zero a))
bit_and-lt' (suc w) a b hb = omega (
  arith,
  and_by_halves a b,
  pow-suc 2 w,
  bit_and-lt' w (a / 2) (b / 2) (omega (arith, pow-suc 2 w)),
)

pub bit_and-lt : (w a b : ℕ) → a < 2 ^ w → bit_and a b < 2 ^ w
bit_and-lt zero a b ha = let za : a ≡ 0 = omega arith in rw za (omega (arith, zero-bit_and b))
bit_and-lt (suc w) a b ha = omega (
  arith,
  and_by_halves a b,
  pow-suc 2 w,
  bit_and-lt w (a / 2) (b / 2) (omega (arith, pow-suc 2 w)),
)

bit-suc : (x k : ℕ) → bit x (suc k) ≡ bit (x / 2) k
unfolding bit
bit-suc x k = refl

suc-add : (s k : ℕ) → suc s + k ≡ suc (s + k)
suc-add s k = omega arith

half-shift_up : (x s : ℕ) → x * 2 ^ suc s / 2 ≡ x * 2 ^ s
half-shift_up x s = omega (arith, ap (λ (t : ℕ). x * t) (pow-suc 2 s))

half-shift_down : (x s : ℕ) → x / 2 ^ suc s ≡ x / 2 / 2 ^ s
half-shift_down x s =
    let power : 2 ^ suc s ≡ 2 * 2 ^ s = omega (arith, pow-suc 2 s) in rw (power, div-div-eq-div-mul)

half-mod : (w x : ℕ) → x % 2 ^ suc w / 2 ≡ x / 2 % 2 ^ w
half-mod w x =
    let p : ℕ = 2 ^ w in
    let q : ℕ = x / 2 ^ suc w in
    let r : ℕ = x % 2 ^ suc w in
    let positive : 0 < 2 ^ w = one-le-pow w 2 (omega arith) in
    let power : 2 ^ suc w ≡ 2 * 2 ^ w = omega (arith, pow-suc 2 w) in
    let split : x / 2 ≡ r / 2 + q * p =
      omega (arith, div-add-mod x (2 ^ suc w), ap (λ (t : ℕ). t * q) power) in
    let small : r / 2 < p = omega (arith, mod-lt x {m = 2 ^ suc w} (omega arith)) in
    rw (split, add-mul-mod_self_right (r / 2) q p) (sym (mod-eq_of_lt small))

mod_mod_two : (w x : ℕ) → x % 2 ^ suc w % 2 ≡ x % 2
mod_mod_two w x =
    let power : 2 ^ suc w ≡ 2 * 2 ^ w = omega (arith, pow-suc 2 w) in
    omega (arith, div-add-mod x (2 ^ suc w), ap (λ (t : ℕ). t * (x / 2 ^ suc w)) power)

pub bit-shift_up : (x s k : ℕ) → bit (x * 2 ^ s) (s + k) ≡ bit x k
bit-shift_up x zero k =
    let same : x * 2 ^ 0 ≡ x = omega arith in
    let place : 0 + k ≡ k = omega arith in rw (same, place)
bit-shift_up x (suc s) k = rw (suc-add s k, bit-suc, half-shift_up x s) (bit-shift_up x s k)

pub bit-shift_up_low : (x s k : ℕ) → k < s → bit (x * 2 ^ s) k ≡ 0
bit-shift_up_low x zero k h = absurd (omega arith)
bit-shift_up_low x (suc s) zero h = unfold bit in omega (arith, ap (λ (t : ℕ). x * t) (pow-suc 2 s))
bit-shift_up_low x (suc s) (suc k) h =
    rw (bit-suc, half-shift_up x s) (bit-shift_up_low x s k (omega arith))

pub bit-shift_down : (x s k : ℕ) → bit (x / 2 ^ s) k ≡ bit x (s + k)
bit-shift_down x zero k =
    let same : x / 2 ^ 0 ≡ x = omega arith in
    let place : 0 + k ≡ k = omega arith in rw (same, place)
bit-shift_down x (suc s) k =
    rw (suc-add s k, bit-suc, half-shift_down x s) (bit-shift_down (x / 2) s k)

-- The low `w` bits.
pub bit-mod : (w x k : ℕ) → bit (x % 2 ^ w) k ≡ (if ltb k w then bit x k else 0)
bit-mod zero x k =
    let none_left : x % 2 ^ 0 ≡ 0 = omega arith in rw none_left (bit-of_zero k ∙ ground arith)
bit-mod (suc w) x zero = unfold bit in ground (arith, half-mod w x, pow-suc 2 w, mod_mod_two w x)
bit-mod (suc w) x (suc k) =
    rw (bit-suc (x % 2 ^ suc w) k, bit-suc x k, half-mod w x) (bit-mod w (x / 2) k ∙ ground arith)

pub bit-of_fits : (w x k : ℕ) → x < 2 ^ w → w ≤ k → bit x k ≡ 0
bit-of_fits zero x k fits above = let z : x ≡ 0 = omega arith in rw z (bit-of_zero k)
bit-of_fits (suc w) x zero fits above = absurd (omega arith)
bit-of_fits (suc w) x (suc k) fits above =
    rw bit-suc (bit-of_fits w (x / 2) k (omega (arith, pow-suc 2 w)) (omega arith))

-- `(x >> k) & 1`
pub bit_lem : (x k : ℕ) → bit x k ≡ x / 2 ^ k % 2
bit_lem x k =
    let same : k + 0 ≡ k = omega arith in
    let lowest : bit (x / 2 ^ k) 0 ≡ x / 2 ^ k % 2 = unfold bit in refl in
    sym (rw (← lowest, bit-shift_down) (ap (bit x) same))
