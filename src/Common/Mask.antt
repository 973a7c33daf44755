-- ===== src/Common/Mask.antt =====
-- Masks by powers of two on 64-bit words: `x & ~(a - 1)` clears the low bits of `x`.
use Prim.Native.Nat.{
  ℕ, zero, suc, ◌+◌, ◌-◌, ◌*◌, ◌/◌, ◌%◌, ◌^◌, ◌≤◌, ◌<◌, min, max, bit_and, bit_or, digits, bitwise,
  bit_and-bitwise, bit_or-bitwise,
}
use mathlib.Core.Path.{◌≡◌, refl, ap, sym, ◌∙◌, subst}
use native.Mathlib.Nat.{
  pow-suc, le_refl, one-le-pow, mod-eq_of_lt, mod-lt, mul-add-mod_self_left, div-add-mod, zero-add,
  mul-mod_right, suc-add,
}
use native.Mathlib.Omega.{arith}
use malloc.Common.Tests.{sub64}

-- The digit recursion that the bit operations stand for, without its fuel.
module _ (z : ℕ → ℕ) (f : ℕ → ℕ → ℕ) where
  one_more : (fuel x y : ℕ) → x ≤ fuel → digits z f (suc fuel) x y ≡ digits z f fuel x y
  one_more fuel zero y p = none_needed fuel
    where
      none_needed : (k : ℕ) → digits z f (suc k) 0 y ≡ digits z f k 0 y
      none_needed zero = refl
      none_needed (suc k) = refl
  one_more zero (suc x) y p = absurd (omega arith)
  one_more (suc fuel) (suc x) y p = rw (one_more fuel (suc x / 2) (y / 2) (omega arith))

  spare : (d x y : ℕ) → digits z f (d + x) x y ≡ digits z f x x y
  spare zero x y = rw (zero-add x)
  spare (suc d) x y = rw (suc-add d x) (one_more (d + x) x y (omega arith) ∙ spare d x y)

  halves :
      (x y : ℕ)
      → bitwise z f (suc x) y ≡ bitwise z f (suc x / 2) (y / 2) * 2 + f (suc x % 2) (y % 2)
  halves x y =
      let rejoin : x - suc x / 2 + suc x / 2 ≡ x = omega arith in
      ap (λ t. t * 2 + f (suc x % 2) (y % 2))
        (ap (λ t. digits z f t (suc x / 2) (y / 2)) (sym rejoin)
          ∙ spare (x - suc x / 2) (suc x / 2) (y / 2))

bit_and-halves : (x y : ℕ) → bit_and x y ≡ bit_and (x / 2) (y / 2) * 2 + min (x % 2) (y % 2)
bit_and-halves (suc x) y =
    rw (bit_and-bitwise (suc x) y, bit_and-bitwise (suc x / 2) (y / 2)) (halves (λ _. 0) min x y)
bit_and-halves zero y = rw (bit_and-bitwise 0 y, bit_and-bitwise 0 (y / 2)) (omega arith)

bit_or-halves : (x y : ℕ) → bit_or x y ≡ bit_or (x / 2) (y / 2) * 2 + max (x % 2) (y % 2)
bit_or-halves (suc x) y =
    rw (bit_or-bitwise (suc x) y, bit_or-bitwise (suc x / 2) (y / 2)) (halves (λ t. t) max x y)
bit_or-halves zero y = rw (bit_or-bitwise 0 y, bit_or-bitwise 0 (y / 2)) (omega arith)

-- An operation that halves both sides, against 0: what it does to the first, it does digit by digit.
zero_right :
    (op : ℕ → ℕ → ℕ) (g : ℕ → ℕ)
    → op 0 0 ≡ g 0
    → ((x : ℕ) → op (x / 2) 0 ≡ g (x / 2) → op x 0 ≡ g x)
    → (bound x : ℕ) → x ≤ bound
    → op x 0 ≡ g x
zero_right op g start step bound zero h = start
zero_right op g start step zero (suc x) h = absurd (omega arith)
zero_right op g start step (suc bound) (suc x) h =
    step (suc x) (zero_right op g start step bound (suc x / 2) (omega arith))

pub bit_and-zero : (x : ℕ) → bit_and x 0 ≡ 0
bit_and-zero x =
    zero_right bit_and (λ _. 0) refl (λ t e. omega (arith, e, bit_and-halves t 0)) x x (le_refl x)

bit_or-zero : (x : ℕ) → bit_or x 0 ≡ x
bit_or-zero x =
    zero_right bit_or (λ t. t) refl (λ t e. omega (arith, e, bit_or-halves t 0)) x x (le_refl x)

-- The lowest digit of a remainder.
pub mod-double : (x p : ℕ) → 0 < p → x % (p * 2) ≡ x / 2 % p * 2 + x % 2
mod-double x p h =
    ap (λ t. t % (p * 2)) split
    ∙ mul-add-mod_self_left (p * 2) (x / 2 / p) (x / 2 % p * 2 + x % 2)
    ∙ mod-eq_of_lt (omega (arith, mod-lt (x / 2) h))
  where
    split : x ≡ p * 2 * (x / 2 / p) + (x / 2 % p * 2 + x % 2)
    split = omega (arith, div-add-mod (x / 2) p)

mod-pow-suc : (x k : ℕ) → x % 2 ^ suc k ≡ x / 2 % 2 ^ k * 2 + x % 2
mod-pow-suc x k = rw (pow-suc 2 k) (mod-double x (2 ^ k) (one-le-pow k 2 (omega arith)))

-- `x & (2^k - 1)` is the remainder.
pub bit_and-low : (k x : ℕ) → bit_and x (2 ^ k - 1) ≡ x % 2 ^ k
bit_and-low zero x = omega (arith, bit_and-zero x)
bit_and-low (suc k) x =
    bit_and-halves x (2 ^ suc k - 1)
    ∙ omega (arith, one, ap (bit_and (x / 2)) half, bit_and-low k (x / 2), mod-pow-suc x k)
  where
    pos : 1 ≤ 2 ^ k
    pos = one-le-pow k 2 (omega arith)

    half : (2 ^ suc k - 1) / 2 ≡ 2 ^ k - 1
    half = omega (arith, pow-suc 2 k, pos)

    one : (2 ^ suc k - 1) % 2 ≡ 1
    one = omega (arith, pow-suc 2 k, pos)

-- `x & ~(2^k - 1)`, in words of `k + n` bits, clears the remainder.
pub bit_and-high : (k n x : ℕ) → x < 2 ^ (k + n) → bit_and x (2 ^ (k + n) - 2 ^ k) ≡ x - x % 2 ^ k
bit_and-high zero n x h =
    rw (zero-add n) (bit_and-low n x ∙ mod-eq_of_lt (rw (← zero-add n) h) ∙ omega arith)
bit_and-high (suc k) n x h =
    bit_and-halves x (2 ^ (suc k + n) - 2 ^ suc k)
    ∙ omega (
      arith,
      even,
      ap (bit_and (x / 2)) half,
      bit_and-high k n (x / 2) (omega (arith, h, double)),
      mod-pow-suc x k,
    )
  where
    double : 2 ^ (suc k + n) ≡ 2 ^ (k + n) * 2
    double = rw (suc-add k n) (pow-suc 2 (k + n))

    half : (2 ^ (suc k + n) - 2 ^ suc k) / 2 ≡ 2 ^ (k + n) - 2 ^ k
    half = omega (arith, double, pow-suc 2 k)

    even : (2 ^ (suc k + n) - 2 ^ suc k) % 2 ≡ 0
    even = omega (arith, double, pow-suc 2 k)

-- `~m` on size_t.
abbrev pub not64 : ℕ → ℕ
not64 m = 2 ^ 64 - 1 - m % 2 ^ 64

-- `(x + a - 1) & ~(a - 1)` on size_t.
unfoldable pub align_up : ℕ → ℕ → ℕ
align_up x a = bit_and (sub64 (x + a) 1) (not64 (sub64 a 1))

-- Where nothing wraps, rounding up to a power of two is arithmetic.
pub align_up-pow :
    (k n x : ℕ)
    → k + n ≡ 64
    → x + 2 ^ k ≤ 2 ^ 64
    → align_up x (2 ^ k) ≡ x + 2 ^ k - 1 - (x + 2 ^ k - 1) % 2 ^ k
unfolding align_up
align_up-pow k n x e h =
    rw (word, mask)
      (subst
        (λ t. bit_and (x + 2 ^ k - 1) (2 ^ t - 2 ^ k) ≡ x + 2 ^ k - 1 - (x + 2 ^ k - 1) % 2 ^ k) e
        (bit_and-high k n (x + 2 ^ k - 1) (rw e (omega (arith, pos)))))
  where
    pos : 1 ≤ 2 ^ k
    pos = one-le-pow k 2 (omega arith)

    word : sub64 (x + 2 ^ k) 1 ≡ x + 2 ^ k - 1
    word = omega (arith, pos)

    mask : not64 (sub64 (2 ^ k) 1) ≡ 2 ^ 64 - 2 ^ k
    mask = omega (arith, pos)

-- The least multiple of `a` that is not below `x`.
pub record IsRoundUp (x a y : ℕ) : Type 0 where
  pub aligned : y % a ≡ 0
  pub above : x ≤ y
  pub near : y < x + a

pub align_up-IsRoundUp :
    (k n x : ℕ) → k + n ≡ 64 → x + 2 ^ k ≤ 2 ^ 64 → IsRoundUp x (2 ^ k) (align_up x (2 ^ k))
align_up-IsRoundUp k n x e h =
    rw (align_up-pow k n x e h)
      (record { aligned = aligned; above = omega (arith, pos, small); near = omega (arith, pos) })
  where
    pos : 1 ≤ 2 ^ k
    pos = one-le-pow k 2 (omega arith)

    small : (x + 2 ^ k - 1) % 2 ^ k < 2 ^ k
    small = mod-lt (x + 2 ^ k - 1) pos

    aligned : (x + 2 ^ k - 1 - (x + 2 ^ k - 1) % 2 ^ k) % 2 ^ k ≡ 0
    aligned =
        ap (λ t. t % 2 ^ k) (omega (arith, div-add-mod (x + 2 ^ k - 1) (2 ^ k)))
        ∙ mul-mod_right (2 ^ k) ((x + 2 ^ k - 1) / 2 ^ k)

-- Fields that do not overlap: `(t << k) | p` is a sum.
pub bit_or-high : (k t p : ℕ) → p < 2 ^ k → bit_or (t * 2 ^ k) p ≡ t * 2 ^ k + p
bit_or-high zero t zero h = omega (arith, bit_or-zero (t * 1))
bit_or-high zero t (suc p) h = absurd (omega arith)
bit_or-high (suc k) t p h =
    bit_or-halves (t * 2 ^ suc k) p
    ∙ omega (
      arith,
      double,
      ap (λ y. bit_or y (p / 2)) half,
      bit_or-high k t (p / 2) (omega (arith, pow-suc 2 k)),
    )
  where
    double : t * 2 ^ suc k ≡ t * 2 ^ k * 2
    double = rw (pow-suc 2 k) (omega arith)

    half : t * 2 ^ suc k / 2 ≡ t * 2 ^ k
    half = omega (arith, double)
