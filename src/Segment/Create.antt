-- ===== src/Segment/Create.antt =====
-- What segment_create of src/segment.c makes.
use malloc.Common.{
  ℕ, zero, suc, ◌+◌, ◌%◌, ◌^◌, ◌<◌, ◌≤◌, ◌≡◌, ◌≢◌, refl, sym, ==_iff, ap, ◌∙◌, some, get_or, length,
  arith, ne→==,
}
use malloc.Os.{Os, Kernel, os_mmap_aligned}
use malloc.Os.Aligned.{asked, IsAnswer, Maps, os_mmap_aligned-Maps}
use malloc.Registry.Probe.{IsRegistry, Contains}
use malloc.Registry.Register.{Registered, segment_register-Registered}
use malloc.Segment.{Segments, segment_create, new_segment, put, blank, blank_pages, page_at}
use malloc.Segment.Pages.{IsSegment, IsUnused}

length-blank_pages : (left i seg arena : ℕ) → length (blank_pages left i seg arena) ≡ left
unfolding blank_pages
length-blank_pages zero i seg arena = refl
length-blank_pages (suc left) i seg arena = ap suc (length-blank_pages left (i + 1) seg arena)

get_or-blank_pages :
    (left i seg arena j : ℕ)
    → j < left
    → get_or (blank_pages left i seg arena) j (blank 0 0 0) ≡ blank seg arena (i + j)
unfolding blank_pages
get_or-blank_pages zero i seg arena j h = absurd (omega arith)
get_or-blank_pages (suc left) i seg arena zero h = ap (blank seg arena) (omega arith)
get_or-blank_pages (suc left) i seg arena (suc j) h =
    get_or-blank_pages left (i + 1) seg arena j (omega arith) ∙ ap (blank seg arena) (omega arith)

new_segment-page :
    (base arena i : ℕ)
    → suc i < 64
    → page_at (new_segment base arena) (suc i) ≡ blank base arena (suc i)
unfolding new_segment blank_pages
new_segment-page base arena i h =
    get_or-blank_pages 63 1 base arena i (omega arith) ∙ ap (blank base arena) (omega arith)

pub new_segment-IsSegment : (base arena : ℕ) → IsSegment base (new_segment base arena)
unfolding new_segment blank_pages
new_segment-IsSegment base arena = record {
  sized = refl;
  placed = places;
  header = refl;
  counted = refl;
}
  where
    places :
        (i : ℕ)
        → i < 64
        → ((page_at (new_segment base arena) i).segment ≡ base)
          × ((page_at (new_segment base arena) i).page_index ≡ i)
    places zero h = (refl, refl)
    places (suc i) h = rw (new_segment-page base arena i h) (refl, omega arith)

-- A new segment at `a`: mapped on a 4 MB boundary, valid, with all data pages unused, and registered.
pub record IsCreated (s : Segments) (a : ℕ) (r : Segments) : Type 0 where
  pub aligned : a % 2 ^ 22 ≡ 0
  pub maps : Maps s.os (2 ^ 22) a r.os
  pub valid : IsSegment a (r.segment a)
  pub unopened : (i : ℕ) → 1 ≤ i → i < 64 → IsUnused (r.segment a) i
  pub registered : Registered s.registry a r.registry
  pub others : (b : ℕ) → b ≢ a → r.segment b ≡ s.segment b

-- If mmap succeeds and the registry has an empty slot, segment_create returns a 4 MB block on a 4 MB
-- boundary that holds a valid segment with all data pages unused, adds its address to the registry,
-- and leaves the other segments alone.
pub segment_create-IsCreated :
    (k : Kernel) (arena j p : ℕ) (s : Segments)
    → k.page_size ≡ 2 ^ j
    → IsRegistry s.registry
    → Contains s.registry 0
    → k.answer (asked k (2 ^ 22) (2 ^ 22)) ≡ some p
    → IsAnswer k.page_size s.os (asked k (2 ^ 22) (2 ^ 22)) p
    → let r = segment_create k arena s in IsCreated s r.0 r.1
unfolding segment_create
segment_create-IsCreated k arena j p s pages v room got ans = rw (ne→== m.0 0 some_mem) (record {
  aligned = made.0;
  maps = made.1;
  valid = rw here (new_segment-IsSegment m.0 arena);
  unopened = λ i lo hi. rw here (fresh_page i lo hi);
  registered = segment_register-Registered m.0 v some_mem room;
  others = λ b ne. rw (ne→== m.0 b (λ e. ne (sym e))) refl;
})
  where
    m : ℕ × Os
    m = os_mmap_aligned k 0x40_0000 0x40_0000 s.os

    made : (m.0 % 2 ^ 22 ≡ 0) × Maps s.os (2 ^ 22) m.0 m.1
    made = os_mmap_aligned-Maps k (2 ^ 22) 22 j 42 p s.os pages refl (omega arith) got ans

    some_mem : m.0 ≢ 0
    some_mem = omega (arith, made.1.given)

    here : put m.0 (new_segment m.0 arena) s.segment m.0 ≡ new_segment m.0 arena
    here = rw ((==_iff m.0 m.0).1 refl) refl

    fresh_page : (i : ℕ) → 1 ≤ i → i < 64 → IsUnused (new_segment m.0 arena) i
    fresh_page zero lo hi = absurd (omega arith)
    fresh_page (suc i) lo hi = rw (new_segment-page m.0 arena i hi) refl
