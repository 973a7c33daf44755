-- ===== src/Heap/Refs.antt =====
-- Reading back what has been written through a page's reference.
use malloc.Common.{
  ℕ, ◌%◌, ◌^◌, ◌<◌, ◌≡◌, ◌≢◌, refl, ap, ◌∙◌, subst, length, set, get_or-set_self, get_or-set_ne,
  ==_iff, ne→==, arith, ℕ_discrete,
}
use malloc.Page.{Page}
use malloc.Segment.{Segment, page_at, blank}
use malloc.Heap.{Heap, page_ref, index_of, seg_of, segment_of, page_of, put_segment, put_page}

-- The parts of a reference.
pub seg_of-page_ref : (seg i : ℕ) → seg % 2 ^ 22 ≡ 0 → i < 64 → seg_of (page_ref seg i) ≡ seg
seg_of-page_ref seg i on lt = omega arith

pub index_of-page_ref : (seg i : ℕ) → seg % 2 ^ 22 ≡ 0 → i < 64 → index_of (page_ref seg i) ≡ i
index_of-page_ref seg i on lt = omega arith

pub refs_differ : (p q : ℕ) → p ≢ q → seg_of p ≡ seg_of q → index_of p ≢ index_of q
refs_differ p q ne same e = ne (omega (arith, same, e))

pub segment_of-put_self :
    (h : Heap) (seg : ℕ) (s : Segment) → segment_of (put_segment seg s h) seg ≡ s
segment_of-put_self h seg s = rw ((==_iff seg seg).1 refl) refl

pub segment_of-put_ne :
    (h : Heap) (seg b : ℕ) (s : Segment)
    → seg ≢ b
    → segment_of (put_segment seg s h) b ≡ segment_of h b
segment_of-put_ne h seg b s ne = rw (ne→== seg b ne) refl

pub page_of-put_self :
    (h : Heap) (p : ℕ) (page : Page)
    → index_of p < length (segment_of h (seg_of p)).pages
    → page_of (put_page p page h) p ≡ page
page_of-put_self h p page lt =
    ap (λ s. page_at s (index_of p)) (segment_of-put_self h (seg_of p) _)
    ∙ get_or-set_self _ _ _ _ lt

pub page_of-put_ne :
    (h : Heap) (p q : ℕ) (page : Page) → p ≢ q → page_of (put_page p page h) q ≡ page_of h q
page_of-put_ne h p q page ne = elim (ℕ_discrete (seg_of p) (seg_of q)) [
  | yes same ↦
      ap (λ s. page_at s (index_of q))
        (subst
          (λ b. segment_of (put_page p page h) b ≡ record (segment_of h (seg_of p)) {
            pages = set (segment_of h (seg_of p)).pages (index_of p) page;
          })
          same (segment_of-put_self h (seg_of p) _))
      ∙ get_or-set_ne (segment_of h (seg_of p)).pages (index_of p) (index_of q) page (blank 0 0 0)
          (refs_differ p q ne same)
      ∙ ap (λ b. page_at (segment_of h b) (index_of q)) same
  | no other ↦ ap (λ s. page_at s (index_of q)) (segment_of-put_ne h (seg_of p) (seg_of q) _ other)
]
