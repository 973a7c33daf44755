-- ===== src/Segment/Pages.antt =====
-- The page table of a segment of src/segment.c: the pages in use, and the search for an unused one.
use malloc.Common.{
  ℕ, zero, suc, ◌+◌, ◌<◌, ◌≤◌, ◌≡◌, inl, inr, ap, ◌∙◌, subst, true, false, Bool-cases, Option, none,
  some, List, [], ◌∷◌, get_or, set, length, length-set, get_or-set_self, get_or-set_ne,
  if◌then◌else◌, arith, ℕ_discrete,
}
use malloc.Page.{Page}
use malloc.Segment.{Segment, blank, page_at, is_unused, unused_loop}

-- how many pages are in use, the header's own included
abbrev pub in_use : List Page → ℕ
in_use [] = 0
in_use (p ∷ ps) = (if is_unused p.state then 0 else 1) + in_use ps

abbrev pub IsUnused : Segment → ℕ → Type 0
IsUnused seg i = is_unused (page_at seg i).state ≡ true

abbrev pub IsInUse : Segment → ℕ → Type 0
IsInUse seg i = is_unused (page_at seg i).state ≡ false

-- The metadata say of each page where it lies, page 0 is never free, and pages_used counts the others
-- that are in use.
pub record IsSegment (base : ℕ) (seg : Segment) : Type 0 where
  pub sized : length seg.pages ≡ 64
  pub placed :
      (i : ℕ) → i < 64 → ((page_at seg i).segment ≡ base) × ((page_at seg i).page_index ≡ i)
  pub header : IsInUse seg 0
  pub counted : seg.pages_used + 1 ≡ in_use seg.pages

pub in_use-set :
    (ps : List Page) (i : ℕ) (p d : Page)
    → i < length ps
    → in_use (set ps i p) + (if is_unused (get_or ps i d).state then 0 else 1)
      ≡ in_use ps + (if is_unused p.state then 0 else 1)
in_use-set [] i p d h = absurd (omega arith)
in_use-set (x ∷ ps) zero p d h = omega arith
in_use-set (x ∷ ps) (suc i) p d h = omega (arith, in_use-set ps i p d (omega arith))

pub in_use-pos :
    (ps : List Page) (i : ℕ)
    → i < length ps
    → is_unused (get_or ps i (blank 0 0 0)).state ≡ false
    → 1 ≤ in_use ps
in_use-pos ps i h taken = ground (arith, in_use-set ps i (blank 0 0 0) (blank 0 0 0) h)

pub in_use-le : (ps : List Page) → in_use ps ≤ length ps
in_use-le [] = omega arith
in_use-le (p ∷ ps) = ground (arith, in_use-le ps)

abbrev Taken : List Page → ℕ → Type 0
Taken pages j = is_unused (get_or pages j (blank 0 0 0)).state ≡ false

-- What the search for an unused page answers.
pub data Search (pages : List Page) (i left : ℕ) : Option ℕ → Type 0 where
  hit :
      (r : ℕ)
      → i ≤ r
      → r < i + left
      → is_unused (get_or pages r (blank 0 0 0)).state ≡ true
      → ((j : ℕ) → i ≤ j → j < r → Taken pages j)
      → Search pages i left (some r)
  miss : ((j : ℕ) → i ≤ j → j < i + left → Taken pages j) → Search pages i left none

from_next :
    {P : ℕ → Type 0} (i : ℕ) {r : ℕ}
    → P i
    → ((j : ℕ) → suc i ≤ j → j < r → P j)
    → (j : ℕ) → i ≤ j
    → j < r
    → P j
from_next {P} i here rest j le lt = elim (ℕ_discrete i j) [
  | yes e ↦ subst P e here
  | no ne ↦ rest j (omega arith) lt
]

pub unused_loop-Search :
    (left i : ℕ) (pages : List Page) → Search pages i left (unused_loop left i pages)
unfolding unused_loop
unused_loop-Search zero i pages = miss (λ j le lt. absurd (omega arith))
unused_loop-Search (suc left) i pages =
    elim (Bool-cases (is_unused (get_or pages i (blank 0 0 0)).state)) [
      | inl free ↦
          rw free (hit i (omega arith) (omega arith) free (λ j le lt. absurd (omega arith)))
      | inr taken ↦
          rw taken
            (later taken (unused_loop left (i + 1) pages) (unused_loop-Search left (i + 1) pages))
    ]
  where
    later :
        is_unused (get_or pages i (blank 0 0 0)).state ≡ false
        → (o : Option ℕ) → Search pages (i + 1) left o
        → Search pages i (suc left) o
    later taken o (hit r le lt free before) =
        hit r (omega arith) (omega arith) free
          (from_next {P = Taken pages} i taken (λ j a b. before j (omega arith) b))
    later taken o (miss all) =
        miss (from_next {P = Taken pages} i taken (λ j a b. all j (omega arith) (omega arith)))

-- A segment with the metadata of one page replaced.
pub replaced-IsSegment :
    (base : ℕ) (seg r : Segment) (i : ℕ) (p : Page)
    → IsSegment base seg
    → i < 64
    → r.pages ≡ set seg.pages i p
    → p.segment ≡ base
    → p.page_index ≡ i
    → (i ≡ 0 → is_unused p.state ≡ false)
    → r.pages_used + 1 ≡ in_use (set seg.pages i p)
    → IsSegment base r
replaced-IsSegment base seg r i p v hi pages seg_of index_of zero_used count = record {
  sized = ap length pages ∙ length-set seg.pages i p ∙ v.sized;
  placed = λ j lt. elim (ℕ_discrete i j) [
    | yes e ↦ rw (pages, ← e, here) (seg_of, index_of)
    | no ne ↦ rw (pages, get_or-set_ne seg.pages i j p (blank 0 0 0) ne) (v.placed j lt)
  ];
  header = elim (ℕ_discrete i 0) [
    | yes e ↦ rw pages (
        subst (λ j. is_unused (get_or (set seg.pages i p) j (blank 0 0 0)).state ≡ false) e
          (rw here (zero_used e)))
    | no ne ↦ rw (pages, get_or-set_ne seg.pages i 0 p (blank 0 0 0) ne) v.header
  ];
  counted = rw pages count;
}
  where
    here : get_or (set seg.pages i p) i (blank 0 0 0) ≡ p
    here = get_or-set_self seg.pages i p (blank 0 0 0) (omega (arith, v.sized))
