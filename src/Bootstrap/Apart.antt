-- ===== src/Bootstrap/Apart.antt =====
-- The blocks of bootstrap_alloc of src/init.c do not overlap.
use malloc.Common.{ℕ, ◌+◌, ◌%◌, ◌^◌, ◌<◌, ◌≤◌, ◌≡◌, ◌≢◌, refl, List, [], ◌∷◌, arith}
use malloc.Common.Mask.{align_up, IsRoundUp, align_up-IsRoundUp}
use malloc.Memory.{null}
use malloc.Bootstrap.{bootstrap_alloc, used_after}

-- What the sizes take at most, each rounded up to 16 bytes.
abbrev pub room_for : List ℕ → ℕ
room_for [] = 0
room_for (size ∷ sizes) = size + 16 + room_for sizes

-- One allocation: a block within the buffer, or NULL.
record IsStep (buf size used p next : ℕ) : Type 0 where
  pub above : used + size ≤ next
  pub near : next < used + size + 16
  pub aligned : next % 16 ≡ 0
  pub block : p ≢ null → (p ≡ buf + used) × (next ≤ 0x1_0000)

bootstrap_alloc-IsStep :
    (buf size used : ℕ)
    → used % 16 ≡ 0
    → used + size + 16 ≤ 2 ^ 64
    → buf + 0x1_0000 ≤ 2 ^ 64
    → let r = bootstrap_alloc buf size used in IsStep buf size used r.0 r.1
unfolding bootstrap_alloc
bootstrap_alloc-IsStep buf size used on fits low = record {
  above = omega (arith, up.above, up.near);
  near = omega (arith, up.above, up.near);
  aligned = omega (arith, up.aligned, up.above, up.near);
  block = λ some_p. ground (arith, up.above, up.near, some_p);
}
  where
    up : IsRoundUp size (2 ^ 4) (align_up size (2 ^ 4))
    up = align_up-IsRoundUp 4 60 size refl (omega arith)

-- The mark only rises, in steps of 16 bytes.
record IsRisen (sizes : List ℕ) (used later : ℕ) : Type 0 where
  pub above : used ≤ later
  pub near : later ≤ used + room_for sizes
  pub aligned : later % 16 ≡ 0

used_after-IsRisen :
    (buf : ℕ) (sizes : List ℕ) (used : ℕ)
    → used % 16 ≡ 0
    → used + room_for sizes ≤ 2 ^ 64
    → buf + 0x1_0000 ≤ 2 ^ 64
    → IsRisen sizes used (used_after buf sizes used)
used_after-IsRisen buf [] used on fits low = record {
  above = omega arith;
  near = omega arith;
  aligned = on;
}
used_after-IsRisen buf (size ∷ sizes) used on fits low =
    let s = bootstrap_alloc-IsStep buf size used on (omega arith) low in
    let r =
      used_after-IsRisen buf sizes (bootstrap_alloc buf size used).1 s.aligned
        (omega (arith, s.near)) low in
    record {
      above = omega (arith, s.above, r.above);
      near = omega (arith, s.near, r.near);
      aligned = r.aligned;
    }

-- Of two blocks that bootstrap_alloc has given out, however many calls lie between them, the later
-- begins past the end of the earlier, and both lie in the buffer. Each starts a multiple of 16 bytes after
-- the buffer's start, so that it is aligned exactly as well as the buffer is. The first starts a multiple of
-- 16 bytes into the buffer or later, the sizes, each with 16 bytes more, must not exceed 2^64 together with
-- what is used, and the buffer must end by 2^64.
pub bootstrap_alloc-apart :
    (buf size used : ℕ) (between : List ℕ) (size' : ℕ)
    → used % 16 ≡ 0
    → used + (size + 16) + room_for between + (size' + 16) ≤ 2 ^ 64
    → buf + 0x1_0000 ≤ 2 ^ 64
    → let first = bootstrap_alloc buf size used in
      let second = bootstrap_alloc buf size' (used_after buf between first.1) in
      first.0 ≢ null
      → second.0 ≢ null
      → (first.0 % 16 ≡ buf % 16)
        × (second.0 % 16 ≡ buf % 16)
        × (buf ≤ first.0)
        × (first.0 + size ≤ second.0)
        × (second.0 + size' ≤ buf + 0x1_0000)
bootstrap_alloc-apart buf size used between size' on fits low some_p some_q =
    let s = bootstrap_alloc-IsStep buf size used on (omega arith) low in
    let r =
      used_after-IsRisen buf between (bootstrap_alloc buf size used).1 s.aligned
        (omega (arith, s.near)) low in
    let t =
      bootstrap_alloc-IsStep buf size' (used_after buf between (bootstrap_alloc buf size used).1)
        r.aligned (omega (arith, s.near, r.near)) low in
    let p = s.block some_p in
    let q = t.block some_q in
    (
      omega (arith, p.0, on),
      omega (arith, q.0, r.aligned),
      omega (arith, p.0),
      omega (arith, p.0, q.0, s.above, r.above),
      omega (arith, q.0, q.1, t.above),
    )
