-- ===== src/Arena/Insert.antt =====
-- bin_insert_page of src/arena.c on a page that has just been opened.
use malloc.Common.{
  ℕ, ◌<◌, ◌≤◌, ◌≡◌, ◌≢◌, refl, sym, ap, ◌∙◌, subst, List, ◌∷◌, get_or, set, length-set,
  get_or-set_self, get_or-set_ne, arith, Bool, true, false, ℕ_discrete, if◌then◌else◌, ne→==,
  ==_iff,
}
use malloc.Memory.{null, not_null}
use malloc.Memory.Chain.{Chain, count}
use malloc.Page.{Page}
use malloc.SizeClass.{bin_to_size}
use malloc.Heap.{Heap, page_of}
use malloc.Heap.Valid.{IsOpen, IsHeap, Live, hold, put_arena-IsHeap, put_arena-IsOpen}
use malloc.Arena.{put_next, put_prev, put_bin, bin_head, bin_insert_page}
use malloc.Arena.Scan.{IsExtended, IsArena, next_page, extended-IsArena}
use malloc.Arena.Take.{count_alloc-IsExtended}
use malloc.Arena.Moved.{moved-IsHeap, moved-IsOpen, moved_here, moved_there, moved-IsExtended}

-- The page is the first of its bin, and nothing else has changed.
pub record IsInserted (before h : Heap) (live : Live) (a bin p : ℕ) (g : Heap) : Type 0 where
  pub valid : IsHeap g live
  pub open_page : IsOpen g p
  pub extended : IsExtended before g
  pub others : (b : ℕ) → a ≢ b → g.arena b ≡ h.arena b
  pub page : page_of g p ≡ record (page_of h p) { next = bin_head h a bin; prev = null }
  pub arena :
      (pages : ℕ → List ℕ) (segs : List ℕ)
      → IsArena before a pages segs
      → IsArena g a (hold pages bin (p ∷ pages bin)) segs

module _ (before h : Heap) (live : Live) (v : IsHeap h live) (a bin p : ℕ) (o : IsOpen h p)
    (some_page : p ≢ null) (x : IsExtended before h) (shut : ¬ (IsOpen before p))
    (arenas : h.arena ≡ before.arena) (in_range : bin < 75)
    (large : bin_to_size before.classes bin ≤ (page_of h p).slot_size) where
  abbrev head : ℕ
  head = bin_head h a bin

  abbrev g1 : Heap
  g1 = put_prev p null h

  v1 : IsHeap g1 live
  v1 = moved-IsHeap h p live v o (page_of h p).next null (page_of h p).owner_tid

  o1 : IsOpen g1 p
  o1 = moved-IsOpen h p live v o (page_of h p).next null (page_of h p).owner_tid p o

  x1 : IsExtended before g1
  x1 =
      moved-IsExtended h p live v o (page_of h p).next null (page_of h p).owner_tid before x
        (λ b. absurd (shut b))

  page1 : page_of g1 p ≡ record (page_of h p) { prev = null }
  page1 = moved_here h p live v o (page_of h p).next null (page_of h p).owner_tid

  abbrev g2 : Heap
  g2 = put_next p head g1

  v2 : IsHeap g2 live
  v2 = moved-IsHeap g1 p live v1 o1 head (page_of g1 p).prev (page_of g1 p).owner_tid

  o2 : IsOpen g2 p
  o2 = moved-IsOpen g1 p live v1 o1 head (page_of g1 p).prev (page_of g1 p).owner_tid p o1

  x2 : IsExtended before g2
  x2 =
      moved-IsExtended g1 p live v1 o1 head (page_of g1 p).prev (page_of g1 p).owner_tid before x1
        (λ b. absurd (shut b))

  page2 : page_of g2 p ≡ record (page_of h p) { next = head; prev = null }
  page2 =
      moved_here g1 p live v1 o1 head (page_of g1 p).prev (page_of g1 p).owner_tid
      ∙ ap (λ (t : Page). record t { next = head }) page1

  -- The heap before the head of the bin is written.
  record IsReady (g : Heap) : Type 0 where
    valid : IsHeap g live
    open_page : IsOpen g p
    extended : IsExtended before g
    same_arenas : g.arena ≡ h.arena
    page : page_of g p ≡ record (page_of h p) { next = head; prev = null }

  g2-IsReady : IsReady g2
  g2-IsReady = record {
    valid = v2;
    open_page = o2;
    extended = x2;
    same_arenas = refl;
    page = page2;
  }

  module _ (oh : IsOpen before head) where
    oh2 : IsOpen g2 head
    oh2 = x2.opened head oh

    g3-IsReady : IsReady (put_prev head p g2)
    g3-IsReady = record {
      valid = moved-IsHeap g2 head live v2 oh2 (page_of g2 head).next p (page_of g2 head).owner_tid;
      open_page =
          moved-IsOpen g2 head live v2 oh2 (page_of g2 head).next p (page_of g2 head).owner_tid p
            o2;
      extended =
          moved-IsExtended g2 head live v2 oh2 (page_of g2 head).next p (page_of g2 head).owner_tid
            before x2 (λ b. refl);
      same_arenas = refl;
      page =
          moved_there g2 head live v2 oh2 (page_of g2 head).next p (page_of g2 head).owner_tid p
            (λ e. shut (subst (IsOpen before) e oh))
          ∙ page2;
    }

  ready :
      (b : Bool)
      → not_null head ≡ b
      → (head ≢ null → IsOpen before head)
      → IsReady (if b then put_prev head p g2 else g2)
  ready true e head_open = g3-IsReady (head_open (λ z. absurd (ground (arith, e, z))))
  ready false e head_open = g2-IsReady

  finished :
      (g : Heap)
      → IsReady g
      → (pages : ℕ → List ℕ) (segs : List ℕ) → IsArena before a pages segs
      → IsArena (put_bin a bin p g) a (hold pages bin (p ∷ pages bin)) segs
  finished g r pages segs w = record {
    sized = rw ((==_iff a a).1 refl) (length-set _ _ _ ∙ y.sized);
    bins = λ b lt. rw ((==_iff a a).1 refl) (chain b lt (ℕ_discrete bin b));
    open_pages = λ b q lt m. put_arena-IsOpen g a _ q (listed_open b q lt (ℕ_discrete bin b) m);
    fits = λ b q lt m. listed_fits b q lt (ℕ_discrete bin b) m;
    segments = rw ((==_iff a a).1 refl) y.segments;
    registered = y.registered;
  }
    where
      y : IsArena g a pages segs
      y =
          extended-IsArena before g a pages segs r.extended
            (ap (λ f. (f a).bins) (r.same_arenas ∙ arenas))
            (ap (λ f. (f a).segments) (r.same_arenas ∙ arenas)) w

      same_head : bin_head g a bin ≡ next_page g p
      same_head = ap (λ f. get_or (f a).bins bin null) r.same_arenas ∙ sym (ap (λ t. t.next) r.page)

      chain :
          (b : ℕ)
          → b < 75
          → Dec (bin ≡ b)
          → Chain
              (next_page g)
              (get_or (set (g.arena a).bins bin p) b null)
              (hold pages bin (p ∷ pages bin) b)
      chain b lt (no other) =
          rw (ne→== bin b other, get_or-set_ne (g.arena a).bins bin b p null other) (y.bins b lt)
      chain b lt (yes e) =
          subst
            (λ t.
              Chain (next_page g) (get_or (set (g.arena a).bins bin p) t null)
                (hold pages bin (p ∷ pages bin) t))
            e
            (rw
              (
                (==_iff bin bin).1 refl,
                get_or-set_self (g.arena a).bins bin p null (omega (arith, y.sized, in_range)),
              )
              (
                refl,
                some_page,
                subst (λ q. Chain (next_page g) q (pages bin)) same_head (y.bins bin in_range),
              ))

      not_first :
          (q : ℕ)
          → q ≢ p
          → count q (hold pages bin (p ∷ pages bin) bin) ≢ 0
          → count q (pages bin) ≢ 0
      not_first q differ m = ground (arith, rw ((==_iff bin bin).1 refl) at m)

      listed_open :
          (b q : ℕ)
          → b < 75
          → Dec (bin ≡ b)
          → count q (hold pages bin (p ∷ pages bin) b) ≢ 0
          → IsOpen g q
      listed_open b q lt (no other) m = y.open_pages b q lt (rw (ne→== bin b other) at m)
      listed_open b q lt (yes e) m = elim (ℕ_discrete q p) [
        | yes same ↦ subst (IsOpen g) (sym same) r.open_page
        | no differ ↦ y.open_pages bin q in_range (
            not_first q differ
              (subst (λ t. count q (hold pages bin (p ∷ pages bin) t) ≢ 0) (sym e) m))
      ]

      listed_fits :
          (b q : ℕ)
          → b < 75
          → Dec (bin ≡ b)
          → count q (hold pages bin (p ∷ pages bin) b) ≢ 0
          → bin_to_size g.classes b ≤ (page_of g q).slot_size
      listed_fits b q lt (no other) m = y.fits b q lt (rw (ne→== bin b other) at m)
      listed_fits b q lt (yes e) m = elim (ℕ_discrete q p) [
        | yes same ↦
            subst (λ t. bin_to_size g.classes b ≤ (page_of g t).slot_size) (sym same)
              (subst (λ t. bin_to_size g.classes t ≤ (page_of g p).slot_size) e
                (rw (r.extended.classes, r.page) large))
        | no differ ↦
            subst (λ t. bin_to_size g.classes t ≤ (page_of g q).slot_size) e
              (y.fits bin q in_range (
                not_first q differ
                  (subst (λ t. count q (hold pages bin (p ∷ pages bin) t) ≢ 0) (sym e) m)))
      ]

  pub bin_insert_page-IsInserted :
      (page_of h p).bin_idx ≡ bin
      → (head ≢ null → IsOpen before head)
      → IsInserted before h live a bin p (bin_insert_page a p h)
  unfolding bin_insert_page
  bin_insert_page-IsInserted of_bin head_open =
      subst (λ b. IsInserted before h live a bin p (into b)) (sym of_bin)
        (inserted _ (ready (not_null head) refl head_open))
    where
      -- the page put into bin `b`
      into : ℕ → Heap
      into b =
          let first = bin_head h a b in
          let linked = put_next p first (put_prev p null h) in
          put_bin a b p (if not_null first then put_prev first p linked else linked)

      inserted : (g : Heap) → IsReady g → IsInserted before h live a bin p (put_bin a bin p g)
      inserted g r = record {
        valid = put_arena-IsHeap g live a _ r.valid;
        open_page = put_arena-IsOpen g a _ p r.open_page;
        extended = count_alloc-IsExtended before g a _ r.extended;
        others = λ b other. rw (ne→== a b other) (ap (λ f. f b) r.same_arenas);
        page = r.page;
        arena = finished g r;
      }
