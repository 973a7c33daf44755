-- ===== src/Memory.antt =====
-- Memory as the free lists see it: each free slot holds, in its first word, the address of the
-- next free slot, and address 0 is NULL.
pub mod Chain
use malloc.Common.{ℕ, Bool, true, false, if◌then◌else◌, ◌==◌}

-- the pointer-sized word at an address
abbrev pub Mem : Type 0
Mem = ℕ → ℕ

abbrev pub null : ℕ
null = 0

-- `*(void **)a = v`
abbrev pub write : Mem → ℕ → ℕ → Mem
write m a v b = if a == b then v else m b

abbrev pub not_null : ℕ → Bool
not_null p = if p == null then false else true
