-- ===== src/Arena/Scan.antt =====
-- The lists of an arena of src/arena.c, and the search for a page with virgin slots.
use malloc.Common.{
  ℕ, zero, suc, ◌<◌, ◌≤◌, ◌≡◌, ◌≢◌, refl, sym, ◌∙◌, List, [], ◌∷◌, length, ◌==◌, arith, true, false,
  Bool-cases, inl, inr, ne→==, ==_iff, Returns,
}
use malloc.Memory.{null}
use malloc.Memory.Chain.{Chain, count}
use malloc.Page.Kept.{Chain-agree}
use malloc.Registry.Probe.{Contains}
use malloc.SizeClass.{bin_to_size}
use malloc.Heap.{Heap, segment_of, page_of}
use malloc.Heap.Valid.{IsOpen}
use malloc.Heap.Frame.{with_system, with_system-IsOpen}
use malloc.Os.{Os}
use malloc.Arena.{has_virgin, scan_bin, bin_head}

-- `page->next` and `seg->next`
abbrev pub next_page : Heap → ℕ → ℕ
next_page h p = (page_of h p).next

abbrev pub next_segment : Heap → ℕ → ℕ
next_segment h s = (segment_of h s).next

-- The pages of each bin are open, with slots large enough for it; the segments are registered.
pub record IsArena (h : Heap) (a : ℕ) (pages : ℕ → List ℕ) (segs : List ℕ) : Type 0 where
  pub sized : length (h.arena a).bins ≡ 75
  pub bins : (b : ℕ) → b < 75 → Chain (next_page h) (bin_head h a b) (pages b)
  pub open_pages : (b p : ℕ) → b < 75 → count p (pages b) ≢ 0 → IsOpen h p
  pub fits :
      (b p : ℕ) → b < 75 → count p (pages b) ≢ 0 → bin_to_size h.classes b ≤ (page_of h p).slot_size
  pub segments : Chain (next_segment h) (h.arena a).segments segs
  pub registered : (s : ℕ) → count s segs ≢ 0 → Contains h.segs.registry s

-- What the operations on one arena leave alone of the rest of the heap.
pub record IsExtended (h g : Heap) : Type 0 where
  pub opened : (p : ℕ) → IsOpen h p → IsOpen g p
  pub size : (p : ℕ) → IsOpen h p → (page_of g p).slot_size ≡ (page_of h p).slot_size
  pub next : (p : ℕ) → IsOpen h p → (page_of g p).next ≡ (page_of h p).next
  pub registered : (s : ℕ) → s ≢ 0 → Contains h.segs.registry s → Contains g.segs.registry s
  pub next_seg :
      (s : ℕ) → s ≢ 0 → Contains h.segs.registry s → (segment_of g s).next ≡ (segment_of h s).next
  pub classes : g.classes ≡ h.classes

pub IsExtended-refl : (h : Heap) → IsExtended h h
IsExtended-refl h = record {
  opened = λ p o. o;
  size = λ p o. refl;
  next = λ p o. refl;
  registered = λ s ne c. c;
  next_seg = λ s ne c. refl;
  classes = refl;
}

pub IsExtended-trans : (h g k : Heap) → IsExtended h g → IsExtended g k → IsExtended h k
IsExtended-trans h g k x y = record {
  opened = λ p o. y.opened p (x.opened p o);
  size = λ p o. y.size p (x.opened p o) ∙ x.size p o;
  next = λ p o. y.next p (x.opened p o) ∙ x.next p o;
  registered = λ s ne c. y.registered s ne (x.registered s ne c);
  next_seg = λ s ne c. y.next_seg s ne (x.registered s ne c) ∙ x.next_seg s ne c;
  classes = y.classes ∙ x.classes;
}

-- A call of the kernel.
pub with_system-IsExtended : (h : Heap) (os : Os) → IsExtended h (with_system h os)
with_system-IsExtended h os = record {
  opened = with_system-IsOpen h os;
  size = λ p o. refl;
  next = λ p o. refl;
  registered = λ b ne c. c;
  next_seg = λ b ne c. refl;
  classes = refl;
}

pub Chain-ne-null : (m : ℕ → ℕ) (q a : ℕ) (xs : List ℕ) → Chain m q xs → count a xs ≢ 0 → a ≢ null
Chain-ne-null m q a [] c h = absurd (h refl)
Chain-ne-null m q a (x ∷ xs) c h = elim (Bool-cases (a == x)) [
  | inl same ↦ rw ((==_iff a x).0 same) c.1
  | inr other ↦ Chain-ne-null m (m x) a xs c.2 (ground arith)
]

-- An arena whose own record has not changed is valid in the extended heap.
pub extended-IsArena :
    (h g : Heap) (a : ℕ) (pages : ℕ → List ℕ) (segs : List ℕ)
    → IsExtended h g
    → (g.arena a).bins ≡ (h.arena a).bins
    → (g.arena a).segments ≡ (h.arena a).segments
    → IsArena h a pages segs
    → IsArena g a pages segs
extended-IsArena h g a pages segs x same_bins same_segs v = record {
  sized = rw same_bins v.sized;
  bins = λ b lt. rw same_bins (
      Chain-agree (next_page h) (next_page g) _ (pages b)
        (λ p m. sym (x.next p (v.open_pages b p lt m))) (v.bins b lt));
  open_pages = λ b p lt m. x.opened p (v.open_pages b p lt m);
  fits = λ b p lt m. rw (x.classes, x.size p (v.open_pages b p lt m)) (v.fits b p lt m);
  segments = rw same_segs (
      Chain-agree (next_segment h) (next_segment g) _ segs
        (λ s m. sym (x.next_seg s (Chain-ne-null _ _ s segs v.segments m) (v.registered s m)))
        v.segments);
  registered = λ s m. x.registered s (Chain-ne-null _ _ s segs v.segments m) (v.registered s m);
}

-- NULL, or a page of the list that has virgin slots.
pub record IsScanned (h : Heap) (xs : List ℕ) (r : ℕ) : Type 0 where
  pub found : r ≢ null → (count r xs ≢ 0) × (has_virgin (page_of h r) ≡ true)
  pub missed : r ≡ null → (p : ℕ) → count p xs ≢ 0 → has_virgin (page_of h p) ≡ false

pub scan_bin-IsScanned :
    (fuel : ℕ) (h : Heap) (head : ℕ) (xs : List ℕ)
    → length xs ≤ fuel
    → Chain (next_page h) head xs
    → Returns (scan_bin fuel h head) (IsScanned h xs)
unfolding scan_bin
scan_bin-IsScanned zero h head [] le c =
    (null, rw c refl, record { found = λ ne. absurd (ne refl); missed = λ e p m. absurd (m refl) })
scan_bin-IsScanned (suc fuel) h head [] le c =
    (null, rw c refl, record { found = λ ne. absurd (ne refl); missed = λ e p m. absurd (m refl) })
scan_bin-IsScanned zero h head (x ∷ xs) le c = absurd (omega arith)
scan_bin-IsScanned (suc fuel) h head (x ∷ xs) le c =
    let (r, e, s) = scan_bin-IsScanned fuel h (next_page h x) xs (omega arith) c.2 in
    elim (Bool-cases (has_virgin (page_of h x))) [
      | inl here ↦ (
        x,
        rw (c.0, ne→== x null c.1, here) refl,
        record { found = λ ne. (ground arith, here); missed = λ e. absurd (c.1 e) },
      )
      | inr past ↦ (
        r,
        rw (c.0, ne→== x null c.1, past) e,
        record {
          found = λ ne. (omega (arith, (s.found ne).0), (s.found ne).1);
          missed = λ e p m. elim (Bool-cases (p == x)) [
            | inl same ↦ rw ((==_iff p x).0 same) past
            | inr other ↦ s.missed e p (ground arith)
          ];
        },
      )
    ]
