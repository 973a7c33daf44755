-- ===== src/Segment/Tests.antt =====
-- A segment created at 4 MB, one of its pages opened and closed.
use malloc.Common.{
  ℕ, ◌+◌, ◌*◌, ◌≡◌, ◌≢◌, ◌∙◌, refl, sym, inl, inr, List, [], ◌∷◌, replicate, get_or-replicate,
  arith, some, false,
}
use malloc.Os.{Kernel, madvise}
use malloc.Page.{page_init}
use malloc.SizeClass.{bin_to_size}
use malloc.SizeClass.Table.{tables}
use malloc.Registry.{slot, segment_register}
use malloc.Registry.Probe.{IsRegistry, Contains}
use malloc.Registry.Register.{Registered, segment_register-Registered}
use malloc.Segment.{
  Segment, Segments, new_segment, blank_pages, page_at, segment_create, segment_alloc_page,
  segment_free_page, open_page, ptr_to_page, is_unused,
}
use malloc.Segment.Pages.{IsSegment, IsUnused}
use malloc.Segment.Open.{Opening, opens_page, segment_alloc_page-Opening}
use malloc.Segment.Close.{segment_free_page-IsSegment}
use malloc.Segment.Create.{IsCreated, new_segment-IsSegment, segment_create-IsCreated}
use malloc.Segment.Lookup.{ptr_to_page-inside}

abbrev kernel : Kernel
kernel = record { page_size = 4096; answer = λ size. some 0x30_0000 }

abbrev empty : List ℕ
empty = replicate 256 0

empty_valid : IsRegistry empty
empty_valid = record {
  size = refl;
  reached = λ base d pos h e. absurd (pos (sym e ∙ get_or-replicate 256 (slot base d) 0));
}

empty_room : Contains empty 0
empty_room = record { index = 0; index_lt = omega arith; holds = refl }

abbrev none_yet : Segments
none_yet = record {
  segment = λ a. new_segment 0 0;
  registry = empty;
  os = record { mmap_bytes = 0; calls = [] };
}

segment_create-IsCreated_example :
    let r = segment_create kernel 0x1000 none_yet in IsCreated none_yet r.0 r.1
segment_create-IsCreated_example =
    segment_create-IsCreated kernel 0x1000 12 0x30_0000 none_yet refl empty_valid empty_room refl
      (record {
        some_address = omega arith;
        on_page = refl;
        ends = omega arith;
        fresh = λ a h. refl;
      })

abbrev base : ℕ
base = 0x40_0000

abbrev seg : Segment
seg = new_segment base 0x1000

abbrev one : List ℕ
one = segment_register empty base

one-Registered : Registered empty base one
one-Registered = segment_register-Registered base empty_valid (omega arith) empty_room

segment_alloc_page-Opening_example :
    Opening base 3 (bin_to_size tables 3) (λ a. 0) seg (segment_alloc_page tables base 3 seg)
unfolding bin_to_size
segment_alloc_page-Opening_example =
    segment_alloc_page-Opening tables base 3 (λ a. 0) seg (new_segment-IsSegment base 0x1000)
      (omega arith) (omega arith) (omega arith) (omega arith)

opened_valid : IsSegment base (open_page tables base 3 1 seg)
unfolding bin_to_size new_segment blank_pages
opened_valid =
    (opens_page tables base 3 (λ a. 0) seg (new_segment-IsSegment base 0x1000) (omega arith)
      (omega arith) (omega arith) (omega arith) 1 (omega arith) (omega arith) refl
      (λ j lo hi. absurd (omega arith))).valid

opened_in_use : is_unused (page_at (open_page tables base 3 1 seg) 1).state ≡ false
unfolding open_page new_segment blank_pages page_init
opened_in_use = refl

segment_free_page-IsSegment_example :
    let r = segment_free_page 1 (open_page tables base 3 1 seg) none_yet.os in
    IsSegment base r.0
    × IsUnused r.0 1
    × ((j : ℕ) → j ≢ 1 → page_at r.0 j ≡ page_at (open_page tables base 3 1 seg) j)
    × (r.1.calls ≡ madvise (base + 1 * 0x1_0000) 0x1_0000 ∷ none_yet.os.calls)
segment_free_page-IsSegment_example =
    segment_free_page-IsSegment base 1 (open_page tables base 3 1 seg) none_yet.os opened_valid
      (omega arith) (omega arith) opened_in_use (omega arith) (omega arith)

base_registered : Contains one base
base_registered = (one-Registered.members base (omega arith)).1 (inl refl)

ptr_to_page-inside_example : ptr_to_page one (base + 5 * 0x1_0000 + 100) ≡ some (base, 5)
ptr_to_page-inside_example =
    ptr_to_page-inside one base 5 100 one-Registered.valid base_registered refl (omega arith)
      (omega arith) (omega arith) (omega arith)

other_missing : ¬ (Contains one 0x80_0000)
other_missing c = elim ((one-Registered.members 0x80_0000 (omega arith)).0 c) [
  | inl e ↦ absurd (omega (arith, e))
  | inr old ↦ absurd (omega (arith, old.holds, get_or-replicate {A = ℕ} 256 old.index 0))
]
