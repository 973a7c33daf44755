-- ===== src/Registry/Probe.antt =====
-- When a table is well formed, and what it stands for: the set of the addresses in its slots.
use malloc.Common.{ℕ, ◌+◌, ◌-◌, ◌%◌, ◌<◌, ◌≡◌, ◌≢◌, List, length, get_or, arith}
use malloc.Registry.{slot, probe}

-- The first slot on its probe path that holds `base` is reached: no slot before it is empty.
pub record At (table : List ℕ) (base d : ℕ) : Type 0 where
  pub within : d < 256
  pub found : probe table base d ≡ base
  pub filled : (e : ℕ) → e < d → probe table base e ≢ 0

-- Every address in the table is reached from its hash.
pub record IsRegistry (table : List ℕ) : Type 0 where
  pub size : length table ≡ 256
  pub reached : (base d : ℕ) → base ≢ 0 → d < 256 → probe table base d ≡ base → At table base d

-- The abstract set: the address stands in some slot.
pub record Contains (table : List ℕ) (base : ℕ) : Type 0 where
  pub index : ℕ
  pub index_lt : index < 256
  pub holds : get_or table index 0 ≡ base

-- Every slot lies on every probe path.
pub distance : (base j : ℕ) → j < 256 → (d : ℕ) × (d < 256) × (slot base d ≡ j)
distance base j h = ((j + 256 - slot base 0) % 256, omega arith, omega arith)

-- Two rounds look at the same slot only if they are the same round.
pub slot-injective : (base d e : ℕ) → d < 256 → e < 256 → slot base d ≡ slot base e → d ≡ e
slot-injective base d e h k p = omega arith
