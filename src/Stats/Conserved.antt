-- ===== src/Stats/Conserved.antt =====
-- No count of src/slab.c is lost on its way to the arena.
use malloc.Common.{
  replicate, ℕ, ◌+◌, ◌-◌, ◌^◌, ◌<◌, ◌≡◌, ◌≢◌, refl, ap, ◌∙◌, List, [], ◌∷◌, leb, arith, u64, u32,
  Bool-cases, inl, inr, ne→==,
}
use malloc.Memory.{null}
use malloc.Os.{Os, Kernel}
use malloc.Stats.{
  Tld, Totals, Op, alloc, free, add_stats, tld_stat_flush, count_op, tld_stat_alloc, tld_stat_free,
  stat_op, stat_ops, tld_cleanup,
}

-- bytes allocated and freed, and the numbers of operations, in a list of them
abbrev pub alloc_bytes : List Op → ℕ
alloc_bytes [] = 0
alloc_bytes (alloc n ∷ os) = n + alloc_bytes os
alloc_bytes (free n ∷ os) = alloc_bytes os

abbrev pub free_bytes : List Op → ℕ
free_bytes [] = 0
free_bytes (alloc n ∷ os) = free_bytes os
free_bytes (free n ∷ os) = n + free_bytes os

abbrev pub alloc_number : List Op → ℕ
alloc_number [] = 0
alloc_number (alloc n ∷ os) = 1 + alloc_number os
alloc_number (free n ∷ os) = alloc_number os

abbrev pub free_number : List Op → ℕ
free_number [] = 0
free_number (alloc n ∷ os) = free_number os
free_number (free n ∷ os) = 1 + free_number os

-- What the thread and the arena have counted together has grown by these amounts, modulo 2^64, from
-- (t, a) to (u, b).
pub record Grown (t : Tld) (a : Totals) (m n c d : ℕ) (u : Tld) (b : Totals) : Type 0 where
  pub allocated : u64 (b.allocated + u.stat_allocated) ≡ u64 (a.allocated + t.stat_allocated + m)
  pub freed : u64 (b.freed + u.stat_freed) ≡ u64 (a.freed + t.stat_freed + n)
  pub allocs :
      u64 (b.alloc_count + u.stat_alloc_count) ≡ u64 (a.alloc_count + t.stat_alloc_count + c)
  pub frees : u64 (b.free_count + u.stat_free_count) ≡ u64 (a.free_count + t.stat_free_count + d)
  pub arena : u.arena ≡ t.arena
  pub threads : b.thread_count ≡ a.thread_count
  pub pending : u.stat_ops < 64

count_op-Grown :
    (t : Tld) (a : Totals) → t.stat_ops < 64 → let r = count_op t a in Grown t a 0 0 0 0 r.0 r.1
unfolding count_op tld_stat_flush add_stats
count_op-Grown t a h = elim (Bool-cases (leb 64 (u32 (t.stat_ops + 1)))) [
  | inl now ↦ rw now (record {
    allocated = ground arith;
    freed = ground arith;
    allocs = ground arith;
    frees = ground arith;
    arena = refl;
    threads = refl;
    pending = omega arith;
  })
  | inr later ↦ rw later (record {
    allocated = omega arith;
    freed = omega arith;
    allocs = omega arith;
    frees = omega arith;
    arena = refl;
    threads = refl;
    pending = ground arith;
  })
]

Grown-trans :
    (t u w : Tld) (a b c : Totals) (m n k l m' n' k' l' : ℕ) {M N K L : ℕ}
    → Grown t a m n k l u b
    → Grown u b m' n' k' l' w c
    → m + m' ≡ M
    → n + n' ≡ N
    → k + k' ≡ K
    → l + l' ≡ L
    → Grown t a M N K L w c
Grown-trans t u w a b c m n k l m' n' k' l' g h em en ek el = record {
  allocated = omega (arith, g.allocated, h.allocated);
  freed = omega (arith, g.freed, h.freed);
  allocs = omega (arith, g.allocs, h.allocs);
  frees = omega (arith, g.frees, h.frees);
  arena = h.arena ∙ g.arena;
  threads = h.threads ∙ g.threads;
  pending = h.pending;
}

alloc-Grown :
    (n : ℕ) (t : Tld) (a : Totals)
    → t.stat_ops < 64
    → let r = tld_stat_alloc n t a in Grown t a n 0 1 0 r.0 r.1
unfolding tld_stat_alloc
alloc-Grown n t a h =
    let g =
      count_op-Grown
        (record t {
          stat_allocated = u64 (t.stat_allocated + n);
          stat_alloc_count = u64 (t.stat_alloc_count + 1);
        })
        a h in
    record {
      allocated = omega (arith, g.allocated);
      freed = omega (arith, g.freed);
      allocs = omega (arith, g.allocs);
      frees = omega (arith, g.frees);
      arena = g.arena;
      threads = g.threads;
      pending = g.pending;
    }

free-Grown :
    (n : ℕ) (t : Tld) (a : Totals)
    → t.stat_ops < 64
    → let r = tld_stat_free n t a in Grown t a 0 n 0 1 r.0 r.1
unfolding tld_stat_free
free-Grown n t a h =
    let g =
      count_op-Grown
        (record t {
          stat_freed = u64 (t.stat_freed + n);
          stat_free_count = u64 (t.stat_free_count + 1);
        })
        a h in
    record {
      allocated = omega (arith, g.allocated);
      freed = omega (arith, g.freed);
      allocs = omega (arith, g.allocs);
      frees = omega (arith, g.frees);
      arena = g.arena;
      threads = g.threads;
      pending = g.pending;
    }

stat_ops-Grown :
    (os : List Op) (t : Tld) (a : Totals)
    → t.stat_ops < 64
    → let r = stat_ops os t a in
      Grown t a (alloc_bytes os) (free_bytes os) (alloc_number os) (free_number os) r.0 r.1
unfolding stat_ops stat_op
stat_ops-Grown [] t a h = record {
  allocated = omega arith;
  freed = omega arith;
  allocs = omega arith;
  frees = omega arith;
  arena = refl;
  threads = refl;
  pending = h;
}
stat_ops-Grown (alloc n ∷ os) t a h =
    let g = alloc-Grown n t a h in
    let r = tld_stat_alloc n t a in
    Grown-trans t r.0 (stat_ops os r.0 r.1).0 a r.1 (stat_ops os r.0 r.1).1 n 0 1 0 _ _ _ _ g
      (stat_ops-Grown os r.0 r.1 g.pending) (omega arith) (omega arith) (omega arith) (omega arith)
stat_ops-Grown (free n ∷ os) t a h =
    let g = free-Grown n t a h in
    let r = tld_stat_free n t a in
    Grown-trans t r.0 (stat_ops os r.0 r.1).0 a r.1 (stat_ops os r.0 r.1).1 0 n 0 1 _ _ _ _ g
      (stat_ops-Grown os r.0 r.1 g.pending) (omega arith) (omega arith) (omega arith) (omega arith)

-- What a whole thread adds to its arena.
pub record Added (a : Totals) (os : List Op) (b : Totals) : Type 0 where
  pub allocated : u64 b.allocated ≡ u64 (a.allocated + alloc_bytes os)
  pub freed : u64 b.freed ≡ u64 (a.freed + free_bytes os)
  pub allocs : u64 b.alloc_count ≡ u64 (a.alloc_count + alloc_number os)
  pub frees : u64 b.free_count ≡ u64 (a.free_count + free_number os)
  pub left : b.thread_count ≡ u32 (a.thread_count + (2 ^ 32 - 1))

-- a thread that has counted nothing yet
abbrev pub fresh_tld : (arena thread_id : ℕ) → Tld
fresh_tld arena thread_id = record {
  arena = arena;
  thread_id = thread_id;
  bin_page = replicate 75 0;
  stat_allocated = 0;
  stat_freed = 0;
  stat_alloc_count = 0;
  stat_free_count = 0;
  stat_ops = 0;
}

-- However a thread's allocations and frees follow each other, once the thread has ended its arena's
-- totals have grown by exactly what it allocated and freed, modulo 2^64, and its thread count by -1.
pub stat_ops-Added :
    (k : Kernel) (addr buf_start arena id : ℕ) (ops : List Op) (a : Totals) (os : Os)
    → addr ≢ null
    → arena ≢ null
    → let r = stat_ops ops (fresh_tld arena id) a in
      Added a ops (tld_cleanup k addr buf_start r.0 r.1 os).0
unfolding tld_cleanup add_stats
stat_ops-Added k addr buf_start arena id ops a os some_tld some_arena =
    let g = stat_ops-Grown ops (fresh_tld arena id) a (omega arith) in
    rw (ne→== addr 0 some_tld, g.arena, ne→== arena 0 some_arena)
      (record {
        allocated = ground (arith, g.allocated);
        freed = ground (arith, g.freed);
        allocs = ground (arith, g.allocs);
        frees = ground (arith, g.frees);
        left = ap (λ t. u32 (t + (2 ^ 32 - 1))) g.threads;
      })
