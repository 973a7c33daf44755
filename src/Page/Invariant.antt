-- ===== src/Page/Invariant.antt =====
-- What a page promises: every slot that has been carved is exactly once live, on the local free
-- list or on the remote free list, and the counters say how many of each there are.
use malloc.Common.{
  ℕ, zero, suc, ◌+◌, ◌*◌, ◌%◌, ◌^◌, ◌≤◌, ◌<◌, ◌≡◌, List, arith, refl, ◌≢◌, ◌⊎◌, inl, inr,
  ℕ_discrete, dec_lt, length,
}
use native.Mathlib.Nat.{le_trans, mul-le-mul_left, mul-le-mul_right}
use malloc.Memory.{Mem}
use malloc.Memory.Chain.{Chain, count, hit}
use malloc.Atomic.{tagged_ptr_get}
use malloc.Page.{Page, page_start}

-- How many of the first `n` slots of `size` bytes from `start` have the address `a`.
abbrev pub slots_at : (start size n a : ℕ) → ℕ
slots_at start size zero a = 0
slots_at start size (suc n) a = slots_at start size n a + hit a (start + n * size)

-- The geometry of a page, which only page_init sets.
pub record IsShaped (start slot_size capacity bump_end : ℕ) : Type 0 where
  pub slot_small : 16 ≤ slot_size
  pub slot_aligned : slot_size % 16 ≡ 0
  pub inside : capacity * slot_size ≤ 0x1_0000
  pub bump_stop : bump_end ≡ capacity * slot_size
  pub start_pos : 0 < start
  pub start_low : start + 0x1_0000 ≤ 2 ^ 48

-- `carved` slots have been carved; `live` are with callers.
pub record IsPage (p : Page) (m : Mem) (carved : ℕ) (live local remote : List ℕ) : Type 0 where
  pub shaped : IsShaped (page_start p) p.slot_size p.capacity p.bump_end
  pub bumped : p.bump_offset ≡ carved * p.slot_size
  pub room : carved ≤ p.capacity
  pub local_chain : Chain m p.local_free local
  pub remote_chain : Chain m (tagged_ptr_get p.remote_free) remote
  pub used : p.used ≡ length live
  pub local_count : p.local_free_count ≡ length local
  pub remote_count : p.remote_free_count ≡ length remote
  pub accounted : length live + length local + length remote ≡ carved
  pub owned :
      (a : ℕ)
      → count a live + count a local + count a remote ≡ slots_at (page_start p) p.slot_size carved a

pub capacity_small :
    {start size capacity stop : ℕ} → IsShaped start size capacity stop → capacity ≤ 4096
capacity_small {size} {capacity} s = omega (arith, s.inside, mul-le-mul_left capacity s.slot_small)

pub slots_at-above :
    (start size n a : ℕ) → start + n * size ≤ a → 0 < size → slots_at start size n a ≡ 0
slots_at-above start size zero a h pos = refl
slots_at-above start size (suc n) a h pos =
    ground (arith, slots_at-above start size n a (omega arith) pos)

-- Slots do not share an address.
pub slots_at-le : (start size n a : ℕ) → 0 < size → slots_at start size n a ≤ 1
slots_at-le start size zero a pos = omega arith
slots_at-le start size (suc n) a pos =
    ground (arith, slots_at-le start size n a pos, slots_at-above start size n a)

-- A slot's address is a multiple of the slot size away from the start.
pub record IsSlot (start size n a : ℕ) : Type 0 where
  pub index : ℕ
  pub index_lt : index < n
  pub address : a ≡ start + index * size

pub slots_at-IsSlot : (start size n a : ℕ) → slots_at start size n a ≢ 0 → IsSlot start size n a
slots_at-IsSlot start size zero a h = absurd (h refl)
slots_at-IsSlot start size (suc n) a h = elim (ℕ_discrete a (start + n * size)) [
  | yes e ↦ record { index = n; index_lt = omega arith; address = e }
  | no ne ↦
      let s = slots_at-IsSlot start size n a (ground arith) in
      record { index = s.index; index_lt = omega (arith, s.index_lt); address = s.address }
]

-- Distinct slots do not overlap.
pub slots_apart :
    (start size i j : ℕ)
    → i ≢ j
    → (start + i * size + size ≤ start + j * size) ⊎ (start + j * size + size ≤ start + i * size)
slots_apart start size i j ne = elim (dec_lt i j) [
  | yes below ↦ inl (omega (arith, mul-le-mul_right size below))
  | no above ↦ inr (omega (arith, mul-le-mul_right size (less i j ne above)))
]
  where
    less : (i j : ℕ) → i ≢ j → ¬ (i < j) → suc j ≤ i
    less i j ne h = omega arith

-- No slot is held or free twice.
pub once :
    {p : Page} {m : Mem} {carved : ℕ} {live local remote : List ℕ}
    → IsPage p m carved live local remote
    → (a : ℕ) → count a live + count a local + count a remote ≤ 1
once {p} {carved} v a = omega (
  arith,
  v.owned a,
  slots_at-le (page_start p) p.slot_size carved a (le_trans (omega arith) v.shaped.slot_small),
)

-- The abstract view of a page: the slots that callers hold.
pub record Holds (p : Page) (m : Mem) (live : List ℕ) : Type 0 where
  pub carved : ℕ
  pub local : List ℕ
  pub remote : List ℕ
  pub page : IsPage p m carved live local remote
