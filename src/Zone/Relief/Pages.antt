-- ===== src/Zone/Relief/Pages.antt =====
-- Which pages zone_pressure_relief gives back.
use malloc.Common.{
  Option, none, ℕ_discrete, ◌⊎◌, ℕ, zero, suc, ◌+◌, ◌*◌, ◌≤◌, ◌≡◌, ◌≢◌, refl, sym, ap, ◌∙◌, subst,
  inl, inr, Bool, true, false, ◌&&◌, Bool-cases, some, List, [], ◌∷◌, ◌++◌, map, length,
  length-append, arith, ne→==, ==_iff, u64, Returns,
}
use mathlib.Core.List.{append_assoc, map-append}
use malloc.Memory.{null}
use malloc.Memory.Chain.{Chain, count, count-append}
use malloc.Os.{Os, madvise, os_madvise_free}
use malloc.Page.{Page, PageState, unused, active, full, retired, page_start, page_is_empty}
use malloc.Page.Free.{page_is_empty_iff}
use malloc.Registry.Probe.{Contains}
use malloc.Segment.{is_unused}
use malloc.Heap.{Heap, page_ref, page_of}
use malloc.Heap.Frame.{page_of-page_ref, page_ref-IsOpen}
use malloc.Heap.Valid.{IsOpen, IsHeap, Live}
use malloc.Arena.Scan.{IsArena, next_segment}
use malloc.Slab.{is_active}
use malloc.Zone.Relief.{
  relieve_page, relieve_pages, relieve_segments, relieve_arenas, zone_pressure_relief,
}

-- the data pages of a segment from `i` on, of a list of segments, and of the arenas from `a` on
abbrev pub pages_of : (left i seg : ℕ) → List ℕ
pages_of zero i seg = []
pages_of (suc left) i seg = page_ref seg i ∷ pages_of left (i + 1) seg

abbrev pub segments_pages : List ℕ → List ℕ
segments_pages [] = []
segments_pages (s ∷ ss) = pages_of 63 1 s ++ segments_pages ss

abbrev pub arenas_pages : (ℕ → List ℕ) → (left a : ℕ) → List ℕ
arenas_pages segs zero a = []
arenas_pages segs (suc left) a = segments_pages (segs a) ++ arenas_pages segs left (a + 1)

-- active and empty, as zone_pressure_relief tests it
abbrev pub is_idle : Page → Bool
is_idle p = is_active p.state && page_is_empty p

-- From the record `r` and the bytes in it, of the pages `due` exactly the idle ones have been given back to
-- the kernel, and callers hold no slot of them.
pub record IsRelieved (h : Heap) (live : Live) (due : List ℕ) (r t : Os × ℕ) : Type 0 where
  pub given : List ℕ
  pub unheld : (p : ℕ) → count p given ≢ 0 → IsOpen h p × (live p ≡ [])
  pub among : (p : ℕ) → count p given ≢ 0 → (count p due ≢ 0) × (is_idle (page_of h p) ≡ true)
  pub complete : (p : ℕ) → count p due ≢ 0 → is_idle (page_of h p) ≡ true → count p given ≢ 0
  pub calls : t.0.calls ≡ map (λ p. madvise (page_start (page_of h p)) 0x1_0000) given ++ r.0.calls
  pub bytes : t.0.mmap_bytes ≡ r.0.mmap_bytes
  pub released : u64 t.1 ≡ u64 (r.1 + length given * 0x1_0000)

IsRelieved-none : (h : Heap) (live : Live) (r : Os × ℕ) → IsRelieved h live [] r r
IsRelieved-none h live r = record {
  given = [];
  unheld = λ p m. absurd (m refl);
  among = λ p m. absurd (m refl);
  complete = λ p m idle. absurd (m refl);
  calls = refl;
  bytes = refl;
  released = ap u64 (omega arith);
}

IsRelieved-append :
    {h : Heap} {live : Live} {due more : List ℕ} {r s t : Os × ℕ}
    → IsRelieved h live due r s
    → IsRelieved h live more s t
    → IsRelieved h live (due ++ more) r t
IsRelieved-append {h} {live} {due} {more} {r} x y = record {
  given = y.given ++ x.given;
  unheld = λ p m. elim (either y.given x.given p m) [ inl a ↦ y.unheld p a | inr b ↦ x.unheld p b ];
  among = λ p m. elim (either y.given x.given p m) [
    | inl a ↦ ((λ e. (y.among p a).0 (omega (arith, e, count-append due more p))), (y.among p a).1)
    | inr b ↦ ((λ e. (x.among p b).0 (omega (arith, e, count-append due more p))), (x.among p b).1)
  ];
  complete = λ p m idle. elim (either due more p m) [
    | inl a ↦ λ e. x.complete p a idle (omega (arith, e, count-append y.given x.given p))
    | inr b ↦ λ e. y.complete p b idle (omega (arith, e, count-append y.given x.given p))
  ];
  calls =
      y.calls
      ∙ ap (λ cs. map (λ p. madvise (page_start (page_of h p)) 0x1_0000) y.given ++ cs) x.calls
      ∙ sym (append_assoc (map (λ p. madvise (page_start (page_of h p)) 0x1_0000) y.given) _ _)
      ∙ ap (λ cs. cs ++ r.0.calls)
          (sym (map-append (λ p. madvise (page_start (page_of h p)) 0x1_0000) y.given x.given));
  bytes = y.bytes ∙ x.bytes;
  released = omega (arith, x.released, y.released, length-append y.given x.given);
}
  where
    either : (xs ys : List ℕ) (p : ℕ) → count p (xs ++ ys) ≢ 0 → (count p xs ≢ 0) ⊎ (count p ys ≢ 0)
    either xs ys p m = elim (ℕ_discrete (count p xs) 0) [
      | no some_x ↦ inl some_x
      | yes none_x ↦ inr (λ e. m (omega (arith, none_x, e, count-append xs ys p)))
    ]

active-in_use : (s : PageState) → is_active s ≡ true → is_unused s ≡ false
active-in_use unused h = cc
active-in_use active h = refl
active-in_use full h = cc
active-in_use retired h = cc

relieve_page-IsRelieved :
    (h : Heap) (live : Live) (v : IsHeap h live) (p : ℕ)
    → (is_unused (page_of h p).state ≡ false → IsOpen h p)
    → (r : Os × ℕ) → IsRelieved h live (p ∷ []) r (relieve_page (page_of h p) r)
unfolding relieve_page os_madvise_free
relieve_page-IsRelieved h live v p open_if (os, n) = elim (Bool-cases (is_idle (page_of h p))) [
  | inr busy ↦ rw busy (record {
    given = [];
    unheld = λ q m. absurd (m refl);
    among = λ q m. absurd (m refl);
    complete = λ q m idle. cc (sym busy ∙ ap (λ t. is_idle (page_of h t)) (only q m) ∙ idle);
    calls = refl;
    bytes = refl;
    released = ap u64 (omega arith);
  })
  | inl idle ↦
      let o = open_if (active-in_use _ (both_true idle).0) in
      let holds = v.page p o in
      rw
        (
          idle,
          ne→== (page_start (page_of h p)) 0
              (λ e. absurd (omega (arith, e, holds.page.shaped.start_pos))),
        )
        (record {
          given = p ∷ [];
          unheld = λ q m.
              subst (λ q. IsOpen h q × (live q ≡ [])) (only q m)
                (o, ((page_is_empty_iff holds.page).0 (both_true idle).1).0);
          among = λ q m. (m, ap (λ t. is_idle (page_of h t)) (sym (only q m)) ∙ idle);
          complete = λ q m _. m;
          calls = refl;
          bytes = refl;
          released = omega arith;
        })
]
  where
    only : (q : ℕ) → count q (p ∷ []) ≢ 0 → p ≡ q
    only q m = ground (arith, m)

    both_true : {a b : Bool} → (a && b) ≡ true → (a ≡ true) × (b ≡ true)
    both_true {a} {b} h = ground (arith, h)

module _ (h : Heap) (live : Live) (v : IsHeap h live) where
  relieve_pages-IsRelieved :
      (left i seg : ℕ)
      → seg ≢ null
      → Contains h.segs.registry seg
      → 1 ≤ i
      → i + left ≤ 64
      → (r : Os × ℕ) → IsRelieved h live (pages_of left i seg) r (relieve_pages left i seg h r)
  unfolding relieve_pages
  relieve_pages-IsRelieved zero i seg ne c lo hi r = IsRelieved-none h live r
  relieve_pages-IsRelieved (suc left) i seg ne c lo hi r =
      let here = page_of-page_ref v seg i ne c (omega (arith, hi)) in
      let open_if : is_unused (page_of h (page_ref seg i)).state ≡ false
          → IsOpen h (page_ref seg i) =
        λ used.
          page_ref-IsOpen v seg i ne c (omega (arith, hi)) lo
            (ap (λ p. is_unused p.state) (sym here) ∙ used) in
      IsRelieved-append
        (subst (λ p. IsRelieved h live (page_ref seg i ∷ []) r (relieve_page p r)) here
          (relieve_page-IsRelieved h live v (page_ref seg i) open_if r))
        (relieve_pages-IsRelieved left (i + 1) seg ne c (omega (arith, lo)) (omega (arith, hi)) _)

  relieve_segments-IsRelieved :
      (fuel seg : ℕ) (ss : List ℕ)
      → length ss ≤ fuel
      → Chain (next_segment h) seg ss
      → ((s : ℕ) → count s ss ≢ 0 → Contains h.segs.registry s)
      → (r : Os × ℕ)
      → Returns (relieve_segments fuel seg h r) (IsRelieved h live (segments_pages ss) r)
  unfolding relieve_segments
  relieve_segments-IsRelieved zero seg [] le c known r =
      (r, rw ((==_iff seg null).1 c) refl, IsRelieved-none h live r)
  relieve_segments-IsRelieved (suc fuel) seg [] le c known r =
      (r, rw ((==_iff seg null).1 c) refl, IsRelieved-none h live r)
  relieve_segments-IsRelieved zero seg (x ∷ ss) le c known r = absurd (omega (arith, le))
  relieve_segments-IsRelieved (suc fuel) seg (x ∷ ss) le c known r =
      let pages =
        relieve_pages-IsRelieved 63 1 x c.1 (known x (ground arith)) (omega arith) (omega arith)
          r in
      let (t, ran, rest) =
        relieve_segments-IsRelieved fuel (next_segment h x) ss (omega (arith, le)) c.2
          (λ s m. known s (omega (arith, m))) (relieve_pages 63 1 x h r) in
      (t, rw (c.0, ne→== x null c.1) ran, IsRelieved-append pages rest)

  module _ (pages : ℕ → ℕ → List ℕ) (segs : ℕ → List ℕ)
      (arenas : (a : ℕ) → a ≢ null → IsArena h a (pages a) (segs a)) (fuel : ℕ)
      (enough : (a : ℕ) → a ≢ null → length (segs a) ≤ fuel) where
    relieve_arenas-IsRelieved :
        (left a : ℕ)
        → a ≢ null
        → (r : Os × ℕ)
        → Returns (relieve_arenas fuel left a h r) (IsRelieved h live (arenas_pages segs left a) r)
    unfolding relieve_arenas
    relieve_arenas-IsRelieved zero a ne r = (r, refl, IsRelieved-none h live r)
    relieve_arenas-IsRelieved (suc left) a ne r =
        let (t, ran, here) =
          relieve_segments-IsRelieved fuel (h.arena a).segments (segs a) (enough a ne)
            (arenas a ne).segments (arenas a ne).registered r in
        let (u, ran_on, rest) = relieve_arenas-IsRelieved left (a + 1) (omega arith) t in
        (
          u,
          ap
                (λ (o : Option (Os × ℕ)). elim o as (λ x. Option (Os × ℕ)) [
                  | none ↦ none
                  | some t ↦ relieve_arenas fuel left (a + 1) h t
                ])
                ran
              ∙ ran_on,
          IsRelieved-append here rest,
        )

-- In a valid heap with valid arenas, zone_pressure_relief returns, if the fuel is as much as the arenas'
-- lists of segments have entries. Of the data pages of the arenas' segments it has given back to the kernel,
-- 64 KB each, exactly those that are active and empty, and callers hold no slot of these; what it returns
-- is their number of bytes modulo 2^64.
pub zone_pressure_relief-IsRelieved :
    (h : Heap) (live : Live) (pages : ℕ → ℕ → List ℕ) (segs : ℕ → List ℕ) (fuel : ℕ)
    → IsHeap h live
    → ((a : ℕ) → a ≢ null → IsArena h a (pages a) (segs a))
    → ((a : ℕ) → a ≢ null → length (segs a) ≤ fuel)
    → Returns
        (zone_pressure_relief fuel h)
        (IsRelieved h live (arenas_pages segs h.arena_count 1) (h.segs.os, 0))
unfolding zone_pressure_relief
zone_pressure_relief-IsRelieved h live pages segs fuel v arenas enough =
    relieve_arenas-IsRelieved h live v pages segs arenas fuel enough h.arena_count 1 (omega arith)
      (h.segs.os, 0)
