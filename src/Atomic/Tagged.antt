-- ===== src/Atomic/Tagged.antt =====
-- The two halves of a tagged word.
use malloc.Common.{ℕ, ◌+◌, ◌*◌, ◌^◌, ◌<◌, ◌≡◌, ◌∙◌, arith, u16, u64}
use native.Mathlib.Nat.{mod-eq_of_lt}
use malloc.Common.Mask.{bit_and-low, bit_or-high}
use malloc.Atomic.{tagged_ptr_get, tagged_ptr_tag, tagged_make}

tagged_make-sum : (ptr tag : ℕ) → ptr < 2 ^ 48 → tagged_make ptr tag ≡ u16 tag * 2 ^ 48 + ptr
unfolding tagged_make
tagged_make-sum ptr tag h =
    rw (bit_and-low 48 ptr, mod-eq_of_lt h, u64_fits) (bit_or-high 48 (u16 tag) ptr h)
  where
    u64_fits : u64 (u16 tag * 2 ^ 48) ≡ u16 tag * 2 ^ 48
    u64_fits = omega arith

-- A tagged word gives back a pointer below 2^48, and the tag modulo 2^16.
pub tagged_make_parts :
    (ptr tag : ℕ)
    → ptr < 2 ^ 48
    → (tagged_ptr_get (tagged_make ptr tag) ≡ ptr)
      × (tagged_ptr_tag (tagged_make ptr tag) ≡ u16 tag)
unfolding tagged_ptr_get tagged_ptr_tag
tagged_make_parts ptr tag h =
    rw (tagged_make-sum ptr tag h)
      (bit_and-low 48 (u16 tag * 2 ^ 48 + ptr) ∙ omega arith, omega arith)
