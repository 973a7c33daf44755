-- ===== src/Debug/Bits.antt =====
-- The bits of a byte, by evaluation.
use malloc.Common.{
  ℕ, ◌+◌, ◌-◌, ◌^◌, ◌<◌, ◌≡◌, refl, Bool, true, false, ◌&&◌, not, ltb, ◌==◌, if◌then◌else◌, bit_and,
  bit_or, u8, run_passes, run_passes-at, arith, ==_iff,
}
use malloc.Memory.{not_null}
use malloc.Debug.{bit_mask, popcount}

-- bit `i` of a byte
abbrev pub bit : ℕ → ℕ → Bool
bit b i = not_null (bit_and b (bit_mask i))

same : Bool → Bool → Bool
same true b = b
same false b = not b

same_lem : (a b : Bool) → same a b ≡ true → a ≡ b
unfolding same
same_lem a b h = ground (arith, h)

-- A property of all bytes and two of their bits.
module _ (test : ℕ → ℕ → ℕ → Bool) where
  table : Bool
  table = run_passes (λ b. run_passes (λ i. run_passes (test b i) 0 8) 0 8) 0 256

  table-at : table ≡ true → (b i j : ℕ) → b < 256 → i < 8 → j < 8 → test b i j ≡ true
  unfolding table
  table-at h b i j hb hi hj =
      run_passes-at (test b i) 0 8 j
        (run_passes-at (λ i. run_passes (test b i) 0 8) 0 8 i
          (run_passes-at (λ b. run_passes (λ i. run_passes (test b i) 0 8) 0 8) 0 256 b h
            (omega arith) (omega (arith, hb)))
          (omega arith) (omega (arith, hi)))
        (omega arith) (omega (arith, hj))

set_test : ℕ → ℕ → ℕ → Bool
set_test b i j =
    ltb (bit_or b (bit_mask i)) 256
    && same (bit (bit_or b (bit_mask i)) j) (if i == j then true else bit b j)

clear_test : ℕ → ℕ → ℕ → Bool
clear_test b i j =
    ltb (bit_and b (u8 (2 ^ 32 - 1 - bit_mask i))) 256
    && same (bit (bit_and b (u8 (2 ^ 32 - 1 - bit_mask i))) j) (if i == j then false else bit b j)

set_table : table set_test ≡ true
unfolding table set_test same run_passes
set_table = refl

clear_table : table clear_test ≡ true
unfolding table clear_test same run_passes
clear_table = refl

-- A byte with a bit set, and with a bit cleared, is a byte that differs in that bit.
pub set_bit :
    (b i j : ℕ)
    → b < 256
    → i < 8
    → j < 8
    → (bit_or b (bit_mask i) < 256)
      × (bit (bit_or b (bit_mask i)) j ≡ (if i == j then true else bit b j))
unfolding set_test
set_bit b i j hb hi hj =
    let t = table-at set_test set_table b i j hb hi hj in
    (ground (arith, t), same_lem _ _ (ground (arith, t)))

pub clear_bit :
    (b i j : ℕ)
    → b < 256
    → i < 8
    → j < 8
    → (bit_and b (u8 (2 ^ 32 - 1 - bit_mask i)) < 256)
      × (bit (bit_and b (u8 (2 ^ 32 - 1 - bit_mask i))) j ≡ (if i == j then false else bit b j))
unfolding clear_test
clear_bit b i j hb hi hj =
    let t = table-at clear_test clear_table b i j hb hi hj in
    (ground (arith, t), same_lem _ _ (ground (arith, t)))

abbrev pub one_if : Bool → ℕ
one_if true = 1
one_if false = 0

abbrev pub ones : ℕ → ℕ
ones b =
    one_if (bit b 0)
    + one_if (bit b 1)
    + one_if (bit b 2)
    + one_if (bit b 3)
    + one_if (bit b 4)
    + one_if (bit b 5)
    + one_if (bit b 6)
    + one_if (bit b 7)

pop_table : run_passes (λ b. popcount b == ones b) 0 256 ≡ true
unfolding run_passes
pop_table = refl

-- A population count is the number of the bits set.
pub popcount-ones : (b : ℕ) → b < 256 → popcount b ≡ ones b
popcount-ones b h =
    (==_iff (popcount b) (ones b)).0
      (run_passes-at (λ b. popcount b == ones b) 0 256 b pop_table (omega arith) (omega (arith, h)))
