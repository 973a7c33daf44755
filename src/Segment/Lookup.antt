-- ===== src/Segment/Lookup.antt =====
-- From a pointer back to its page: ptr_to_segment and ptr_to_page of src/segment.c.
use malloc.Common.{
  ℕ, ◌+◌, ◌-◌, ◌*◌, ◌/◌, ◌%◌, ◌^◌, ◌<◌, ◌≤◌, ◌≡◌, refl, ◌∙◌, true, false, Bool-cases, inl, inr,
  none, some, List, arith, bit_and, ne→==, gt→leb, u16, sub64,
}
use malloc.Common.Mask.{bit_and-high}
use malloc.Registry.{segment_is_registered}
use malloc.Registry.Probe.{IsRegistry, Contains}
use malloc.Registry.Lookup.{segment_is_registered_iff}
use malloc.Segment.{ptr_to_segment, ptr_to_page}

-- The mask takes an address to the start of its segment.
mask-base :
    (base o : ℕ)
    → base % 2 ^ 22 ≡ 0
    → o < 2 ^ 22
    → base + o < 2 ^ 64
    → bit_and (base + o) (2 ^ 64 - 2 ^ 22) ≡ base
mask-base base o aligned h low = bit_and-high 22 42 (base + o) low ∙ omega arith

-- With a well-formed registry, every address within page `i` of a registered segment, which
-- lies on a 4 MB boundary, leads back to the segment and to `i`.
pub ptr_to_page-inside :
    (registry : List ℕ) (base i o : ℕ)
    → IsRegistry registry
    → Contains registry base
    → base % 2 ^ 22 ≡ 0
    → 0 < base
    → base + 2 ^ 22 ≤ 2 ^ 64
    → i < 64
    → o < 0x1_0000
    → ptr_to_page registry (base + i * 0x1_0000 + o) ≡ some (base, i)
unfolding ptr_to_page ptr_to_segment
ptr_to_page-inside registry base i o v c aligned pos low hi small =
    rw
      (
        split,
        mask-base base (i * 0x1_0000 + o) aligned (omega arith) (omega arith),
        known,
        ne→== base 0 (omega arith),
        index,
        gt→leb 64 i hi,
      )
      refl
  where
    split : base + i * 0x1_0000 + o ≡ base + (i * 0x1_0000 + o)
    split = omega arith

    known : segment_is_registered registry base ≡ true
    known = (segment_is_registered_iff base v (omega arith)).1 c

    index : u16 (sub64 (base + (i * 0x1_0000 + o)) base / 0x1_0000) ≡ i
    index = omega arith

-- With a well-formed registry, an address whose segment is not registered leads to no page.
pub ptr_to_page-outside :
    (registry : List ℕ) (base o : ℕ)
    → IsRegistry registry
    → ¬ (Contains registry base)
    → base % 2 ^ 22 ≡ 0
    → 0 < base
    → base + 2 ^ 22 ≤ 2 ^ 64
    → o < 2 ^ 22
    → ptr_to_page registry (base + o) ≡ none
unfolding ptr_to_page ptr_to_segment
ptr_to_page-outside registry base o v c aligned pos low hi =
    rw (mask-base base o aligned hi (omega arith), unknown) refl
  where
    unknown : segment_is_registered registry base ≡ false
    unknown = elim (Bool-cases (segment_is_registered registry base)) [
      | inl known ↦ absurd (c ((segment_is_registered_iff base v (omega arith)).0 known))
      | inr e ↦ e
    ]
