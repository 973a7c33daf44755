-- ===== src/Thread/Same.antt =====
-- tld_get of src/tld.c: what making a thread's data leaves alone.
use malloc.Common.{
  ℕ, ◌+◌, ◌≡◌, refl, sym, subst, inl, inr, true, Bool-cases, Option, none, some, if◌then◌else◌,
  ◌==◌, le→leb, arith, u32,
}
use malloc.Memory.{null}
use malloc.Os.{Os, Kernel, mmap, mmap_failed, call, add_bytes, os_mmap_aligned, os_page_size}
use malloc.Os.Aligned.{mapped}
use malloc.Stats.{Tld}
use malloc.Heap.Valid.{IsOpen, IsHeap, Live}
use malloc.Heap.Frame.{with_system, with_system-IsHeap, with_system-IsOpen}
use malloc.Thread.{State, tld_memory, tld_get, new_tld}

-- A mapping of a page leaves mapped what was.
mmap-mapped :
    (k : Kernel) (os : Os) (b : ℕ)
    → mapped os.calls b ≡ true
    → mapped (os_mmap_aligned k k.page_size k.page_size os).1.calls b ≡ true
unfolding os_mmap_aligned
mmap-mapped k os b h =
    rw (le→leb k.page_size k.page_size (omega arith)) (answered (k.answer k.page_size))
  where
    answered :
        (a : Option ℕ)
        → mapped
            (elim a as (λ x. ℕ × Os) [
              | none ↦ (null, call os (mmap_failed k.page_size))
              | some p ↦ (p, add_bytes (call os (mmap k.page_size p)) k.page_size)
            ]).1.calls
            b
          ≡ true
    answered none = h
    answered (some p) = ground (arith, h)

-- The state but for the thread's data and the kernel's record.
pub record IsSameState (s r : State) : Type 0 where
  pub heap : r.heap ≡ with_system s.heap r.heap.segs.os
  pub backed : (b : ℕ) → mapped s.heap.segs.os.calls b ≡ true → mapped r.heap.segs.os.calls b ≡ true
  pub large_list : r.large.large_list ≡ s.large.large_list
  pub headers : r.large.headers ≡ s.large.headers
  pub initialized : r.initialized ≡ s.initialized
  pub bootstrap_buf : r.bootstrap_buf ≡ s.bootstrap_buf

pub IsSameState-refl : (s : State) → IsSameState s s
IsSameState-refl s = record {
  heap = refl;
  backed = λ b h. h;
  large_list = refl;
  headers = refl;
  initialized = refl;
  bootstrap_buf = refl;
}

tld_memory-IsSameState : (k : Kernel) (s : State) → IsSameState s (tld_memory k s).1
unfolding tld_memory os_page_size
tld_memory-IsSameState k s = elim (Bool-cases (s.initialized == 2)) [
  | inl ready ↦ rw ready (record {
    heap = refl;
    backed = mmap-mapped k s.heap.segs.os;
    large_list = refl;
    headers = refl;
    initialized = refl;
    bootstrap_buf = refl;
  })
  | inr early ↦ rw early (record {
    heap = refl;
    backed = λ b h. h;
    large_list = refl;
    headers = refl;
    initialized = refl;
    bootstrap_buf = refl;
  })
]

pub tld_get-IsSameState : (k : Kernel) (s : State) → IsSameState s (tld_get k s).1
unfolding tld_get
tld_get-IsSameState k s =
    elim s.tld
      as (λ (o : Option Tld).
        IsSameState s
          (elim o as (λ x. Option Tld × State) [
            | some t ↦ (some t, s)
            | none ↦ made (tld_memory k s)
          ]).1) [
            | some t ↦ IsSameState-refl s
            | none ↦ made-IsSameState (tld_memory k s) (tld_memory-IsSameState k s)
          ]
  where
    made : ℕ × State → Option Tld × State
    made m = if m.0 == null then (none, m.1) else (
      some (new_tld m.1.thread_id_counter),
      record m.1 {
        tld = some (new_tld m.1.thread_id_counter);
        thread_id_counter = u32 (m.1.thread_id_counter + 1);
      },
    )

    made-IsSameState : (m : ℕ × State) → IsSameState s m.1 → IsSameState s (made m).1
    made-IsSameState m e = elim (Bool-cases (m.0 == null)) [
      | inl failed ↦ rw failed e
      | inr given ↦ rw given (record {
        heap = e.heap;
        backed = e.backed;
        large_list = e.large_list;
        headers = e.headers;
        initialized = e.initialized;
        bootstrap_buf = e.bootstrap_buf;
      })
    ]

-- A valid heap stays valid, and its open pages open.
pub same-IsHeap :
    {s r : State} {live : Live} → IsSameState s r → IsHeap s.heap live → IsHeap r.heap live
same-IsHeap {s} {r} {live} e v =
    subst (λ h. IsHeap h live) (sym e.heap)
      (with_system-IsHeap s.heap r.heap.segs.os live v e.backed)

pub same-IsOpen : {s r : State} → IsSameState s r → (p : ℕ) → IsOpen s.heap p → IsOpen r.heap p
same-IsOpen {s} {r} e p o =
    subst (λ h. IsOpen h p) (sym e.heap) (with_system-IsOpen s.heap r.heap.segs.os p o)
