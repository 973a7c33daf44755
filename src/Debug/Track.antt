-- ===== src/Debug/Track.antt =====
-- One bit changes, and the index of a slot.
use malloc.Common.{
  get_or-replicate, refl, ℕ, ◌+◌, ◌-◌, ◌*◌, ◌/◌, ◌%◌, ◌^◌, ◌<◌, ◌≡◌, ◌⊎◌, inl, inr, sym, ap, ◌∙◌,
  subst, Bool, true, false, ◌==◌, ltb, if◌then◌else◌, List, length, get_or, set, bit_and, bit_or,
  u8, u16, arith, ℕ_discrete, ge→ltb, ltb→ge, lt→ltb, Bool-cases, ne→==, dec_lt, get_or-set_self,
  get_or-set_ne, length-set,
}
use native.Mathlib.Nat.{mul-mod_left, mul-div_left, div-add-mod', div-le_self, le_trans}
use malloc.Memory.{not_null}
use malloc.Page.{Page, page_start}
use malloc.Page.Invariant.{IsShaped, IsSlot, capacity_small}
use Prim.Native.Nat.{bit_and-bitwise}
use malloc.Debug.{blank_bitmap, no_index, debug_slot_index, bit_mask, test_bit}
use malloc.Debug.Bits.{bit, set_bit, clear_bit}

mask_mod : (i : ℕ) → bit_mask (i % 8) ≡ bit_mask i
mask_mod i = ap (λ t. u8 (2 ^ t)) (omega arith)

-- The bitmap has a byte for each eight slots.
pub record IsBitmap (bits : List ℕ) : Type 0 where
  pub sized : length bits ≡ 512
  pub bytes : (k : ℕ) → get_or bits k 0 < 256

pub set_bits :
    (b i j : ℕ)
    → b < 256
    → (bit_or b (bit_mask i) < 256)
      × (bit (bit_or b (bit_mask i)) j ≡ (if i % 8 == j % 8 then true else bit b j))
set_bits b i j hb =
    subst
      (λ t. (bit_or b t < 256) × (bit (bit_or b t) j ≡ (if i % 8 == j % 8 then true else bit b j)))
      (mask_mod i)
      (subst
        (λ u.
          (bit_or b (bit_mask (i % 8)) < 256)
          × (not_null (bit_and (bit_or b (bit_mask (i % 8))) u)
              ≡ (if i % 8 == j % 8 then true else not_null (bit_and b u))))
        (mask_mod j) (set_bit b (i % 8) (j % 8) hb (omega arith) (omega arith)))

pub clear_bits :
    (b i j : ℕ)
    → b < 256
    → (bit_and b (u8 (2 ^ 32 - 1 - bit_mask i)) < 256)
      × (bit (bit_and b (u8 (2 ^ 32 - 1 - bit_mask i))) j
          ≡ (if i % 8 == j % 8 then false else bit b j))
clear_bits b i j hb =
    subst
      (λ t.
        (bit_and b (u8 (2 ^ 32 - 1 - t)) < 256)
        × (bit (bit_and b (u8 (2 ^ 32 - 1 - t))) j ≡ (if i % 8 == j % 8 then false else bit b j)))
      (mask_mod i)
      (subst
        (λ u.
          (bit_and b (u8 (2 ^ 32 - 1 - bit_mask (i % 8))) < 256)
          × (not_null (bit_and (bit_and b (u8 (2 ^ 32 - 1 - bit_mask (i % 8)))) u)
              ≡ (if i % 8 == j % 8 then false else not_null (bit_and b u))))
        (mask_mod j) (clear_bit b (i % 8) (j % 8) hb (omega arith) (omega arith)))

same_rest : (i j : ℕ) → i / 8 ≡ j / 8 → (i % 8 == j % 8) ≡ (i == j)
same_rest i j e = ground (arith, e)

-- A new byte in the place of an old one changes one bit.
module _ (bits : List ℕ) (i v : ℕ) (w : IsBitmap bits) (small : i < 4096) (byte : v < 256) where
  in_range : i / 8 < length bits
  in_range = omega (arith, w.sized)

  pub set-IsBitmap : IsBitmap (set bits (i / 8) v)
  set-IsBitmap = record {
    sized = length-set bits (i / 8) v ∙ w.sized;
    bytes = λ k. elim (ℕ_discrete (i / 8) k) [
      | yes e ↦
          subst (λ t. get_or (set bits (i / 8) v) t 0 < 256) e
            (subst (λ t. t < 256) (sym (get_or-set_self bits (i / 8) v 0 in_range)) byte)
      | no ne ↦ subst (λ t. t < 256) (sym (get_or-set_ne bits (i / 8) k v 0 ne)) (w.bytes k)
    ];
  }

  pub test_bit-set :
      (j : ℕ) (d : Bool)
      → bit v j ≡ (if i % 8 == j % 8 then d else bit (get_or bits (i / 8) 0) j)
      → test_bit (set bits (i / 8) v) j ≡ (if i == j then d else test_bit bits j)
  test_bit-set j d h = elim (ℕ_discrete (i / 8) (j / 8)) [
    | yes e ↦
        (let same =
            subst (λ t. get_or (set bits (i / 8) v) t 0 ≡ v) e
              (get_or-set_self bits (i / 8) v 0 in_range) in
          ap (λ t. bit t j) same
          ∙ h
          ∙ ap (λ t. if t then d else bit (get_or bits (i / 8) 0) j) (same_rest i j e)
          ∙ ap (λ k. if i == j then d else bit (get_or bits k 0) j) e)
    | no ne ↦
        ap (λ t. bit t j) (get_or-set_ne bits (i / 8) (j / 8) v 0 ne)
        ∙ ap (λ t. if t then d else bit (get_or bits (j / 8) 0) j)
            (sym (ne→== i j (λ e. ne (ap (λ t. t / 8) e))))
  ]

pub slot_index :
    (p : Page) (i : ℕ)
    → IsShaped (page_start p) p.slot_size p.capacity p.bump_end
    → i < p.capacity
    → debug_slot_index p (page_start p + i * p.slot_size) ≡ i
unfolding debug_slot_index
slot_index p i s h =
    (rw (
      debug_slot_index,
      ge→ltb (page_start p + i * p.slot_size) (page_start p) (omega arith),
      off,
      mul-mod_left i p.slot_size,
      mul-div_left i pos,
      le_u16,
      lt→ltb i p.capacity h,
    ))
  where
    pos : 0 < p.slot_size
    pos = le_trans (omega arith) s.slot_small

    off : page_start p + i * p.slot_size - page_start p ≡ i * p.slot_size
    off = omega arith

    le_u16 : u16 i ≡ i
    le_u16 = omega (arith, h, capacity_small s)

pub slot_index-none :
    (p : Page) (ptr : ℕ)
    → IsShaped (page_start p) p.slot_size p.capacity p.bump_end
    → ptr < page_start p + 0x1_0000
    → (debug_slot_index p ptr ≡ no_index) ⊎ IsSlot (page_start p) p.slot_size p.capacity ptr
unfolding debug_slot_index
slot_index-none p ptr s h = elim (Bool-cases (ltb ptr (page_start p))) [
  | inl e ↦ inl (rw e)
  | inr e ↦ elim (ℕ_discrete ((ptr - page_start p) % p.slot_size) 0) [
    | no ne ↦ inl (rw (e, ne→== ((ptr - page_start p) % p.slot_size) 0 ne))
    | yes z ↦ elim (dec_lt ((ptr - page_start p) / p.slot_size) p.capacity) [
      | no ge ↦ inl (
          rw (
            e,
            z,
            no_wrap e,
            ge→ltb ((ptr - page_start p) / p.slot_size) p.capacity (omega (arith, ge)),
          ))
      | yes lt ↦ inr record {
        index = (ptr - page_start p) / p.slot_size;
        index_lt = lt;
        address =
            omega (
              arith,
              div-add-mod' (ptr - page_start p) p.slot_size,
              z,
              ltb→ge ptr (page_start p) e,
            );
      }
    ]
  ]
]
  where
    no_wrap :
        ltb ptr (page_start p) ≡ false
        → u16 ((ptr - page_start p) / p.slot_size) ≡ (ptr - page_start p) / p.slot_size
    no_wrap e =
        omega (arith, div-le_self (ptr - page_start p) p.slot_size, h, ltb→ge ptr (page_start p) e)

zero-bit_and : (x : ℕ) → bit_and 0 x ≡ 0
zero-bit_and x = rw (bit_and-bitwise 0 x) refl

pub blank-IsBitmap : IsBitmap blank_bitmap
blank-IsBitmap = record {
  sized = refl;
  bytes = λ k. rw (get_or-replicate {A = ℕ} 512 k 0) (omega arith);
}

pub test_bit-blank : (j : ℕ) → test_bit blank_bitmap j ≡ false
test_bit-blank j = rw (get_or-replicate {A = ℕ} 512 (j / 8) 0, zero-bit_and (bit_mask j)) refl
