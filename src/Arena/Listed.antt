-- ===== src/Arena/Listed.antt =====
-- bin_insert_page of src/arena.c, as a change of the doubly linked list of a bin.
use malloc.Common.{
  ℕ, ◌<◌, ◌≡◌, ◌≢◌, refl, sym, ap, ◌∙◌, subst, List, ◌∷◌, length, get_or, get_or-set_self,
  get_or-set_ne, ℕ_discrete, if◌then◌else◌, ◌==◌, ne→==, ==_iff, true, false, Bool, arith,
}
use malloc.Memory.{null, not_null}
use malloc.Memory.Chain.{count}
use malloc.Large.Linked.{head_listed, first_in, Linked, Linked-agree, Distinct}
use malloc.Large.Unlink.{in_memory}
use malloc.Page.{Page}
use malloc.Heap.{Heap, page_of}
use malloc.Heap.Valid.{IsOpen, IsHeap, Live, hold}
use malloc.Arena.{put_next, put_prev, put_bin, bin_head, bin_insert_page}
use malloc.Arena.Relink.{
  IsRelinked, IsRelinked-refl, put_next-IsRelinked, put_prev-IsRelinked, IsRelinked-as,
}
use malloc.Arena.Lists.{IsListed, links_of}

module _ (h : Heap) (live : Live) (a bin p : ℕ) (pages : ℕ → List ℕ) (v : IsHeap h live)
    (o : IsOpen h p) (some_page : p ≢ null) (sized : length (h.arena a).bins ≡ 75)
    (open_pages : (b q : ℕ) → b < 75 → count q (pages b) ≢ 0 → IsOpen h q)
    (listed : IsListed h a pages) (in_range : bin < 75)
    (absent : (b : ℕ) → b < 75 → count p (pages b) ≡ 0) where
  abbrev head : ℕ
  head = bin_head h a bin

  abbrev nexts : ℕ → ℕ
  nexts y = if y == p then head else (page_of h y).next

  abbrev prevs : ℕ → ℕ
  prevs y = if y == head then p else if y == p then null else (page_of h y).prev

  abbrev Links : Heap → Type 0
  Links g = IsRelinked h live nexts prevs g × (g.arena ≡ h.arena)

  head-IsOpen : head ≢ null → IsOpen h head
  head-IsOpen ne =
      open_pages bin head in_range
        (head_listed (links_of h) head (pages bin) (listed.linked bin in_range) ne)

  linked_in :
      (b : Bool)
      → not_null head ≡ b
      → Links (
          if b
          then put_prev head p (put_next p head (put_prev p null h))
          else put_next p head (put_prev p null h))
  linked_in b e =
      let off = put_prev-IsRelinked (IsRelinked-refl h live v) p null o some_page in
      let on = put_next-IsRelinked off p head (off.opened p o) some_page in
      behind b e (put_next p head (put_prev p null h)) on refl
    where
      behind :
          (b : Bool)
          → not_null head ≡ b
          → (g : Heap)
          → IsRelinked h live nexts (λ y. if y == p then null else (page_of h y).prev) g
          → g.arena ≡ h.arena
          → Links (if b then put_prev head p g else g)
      behind true e g on same =
          let some_head : head ≢ null = λ z. absurd (ground (arith, e, z)) in
          (put_prev-IsRelinked on head p (on.opened head (head-IsOpen some_head)) some_head, same)
      behind false e g on same = (
        IsRelinked-as on (λ y ne. refl)
            (λ y ne. rw (ne→== y head (λ z. ne (ground (arith, e, z)))) refl),
        same,
      )

  module _ (g : Heap) (l : Links g) where
    abbrev done : Heap
    done = put_bin a bin p g

    listed-ne-null : (b q : ℕ) → b < 75 → count q (pages b) ≢ 0 → q ≢ null
    listed-ne-null b q lt m = in_memory (links_of h) q null _ (pages b) (listed.linked b lt) m

    not-new : (b q : ℕ) → b < 75 → count q (pages b) ≢ 0 → q ≢ p
    not-new b q lt m e = m (ap (λ t. count t (pages b)) e ∙ absent b lt)

    same_next : (b q : ℕ) → b < 75 → count q (pages b) ≢ 0 → (page_of g q).next ≡ (page_of h q).next
    same_next b q lt m =
        ap (λ (t : Page). t.next) (l.0.page q (listed-ne-null b q lt m))
        ∙ rw (ne→== q p (not-new b q lt m)) refl

    new_prev :
        (b q : ℕ)
        → b < 75
        → count q (pages b) ≢ 0
        → (page_of g q).prev ≡ (if q == head then p else (page_of h q).prev)
    new_prev b q lt m =
        ap (λ (t : Page). t.prev) (l.0.page q (listed-ne-null b q lt m))
        ∙ rw (ne→== q p (not-new b q lt m)) refl

    new_page : page_of g p ≡ record (page_of h p) { next = nexts p; prev = prevs p }
    new_page = l.0.page p some_page

    not-head : p ≢ head
    not-head e =
        not-new bin p in_range
          (subst (λ t. count t (pages bin) ≢ 0) (sym e)
            (head_listed (links_of h) head (pages bin) (listed.linked bin in_range)
              (subst (λ t. t ≢ null) e some_page)))
          refl

    this_bin : Linked (links_of done) null (bin_head done a bin) (p ∷ pages bin)
    this_bin =
        rw
          (
            (==_iff a a).1 refl,
            get_or-set_self (g.arena a).bins bin p null
                (subst (λ f. bin < length (f a).bins) (sym l.1) (omega (arith, sized, in_range))),
          )
          (
            refl,
            some_page,
            ap (λ (t : Page). t.prev) new_page
                ∙ rw (ne→== p head not-head, (==_iff p p).1 refl) refl,
            rw (ap (λ (t : Page). t.next) new_page, (==_iff p p).1 refl)
                (first_in (links_of h) (links_of g) p head (pages bin) (listed.linked bin in_range)
                  (listed.distinct bin in_range) (λ y m. same_next bin y in_range m)
                  (λ y m. new_prev bin y in_range m)),
          )

    other_bin :
        (b : ℕ) → b < 75 → bin ≢ b → Linked (links_of done) null (bin_head done a b) (pages b)
    other_bin b lt ne =
        rw
          (
            (==_iff a a).1 refl,
            get_or-set_ne (g.arena a).bins bin b p null ne,
            ap (λ f. get_or (f a).bins b null) l.1,
          )
          (Linked-agree (links_of h) (links_of g) null _ (pages b)
            (λ y m. (same_next b y lt m, new_prev b y lt m ∙ rw (ne→== y head (apart y m)) refl))
            (listed.linked b lt))
      where
        apart : (y : ℕ) → count y (pages b) ≢ 0 → y ≢ head
        apart y m e = ne (
            sym (
              listed.binned bin head in_range (
                head_listed (links_of h) head (pages bin) (listed.linked bin in_range)
                  (subst (λ t. t ≢ null) e (listed-ne-null b y lt m))))
            ∙ subst (λ t. (page_of h t).bin_idx ≡ b) e (listed.binned b y lt m))

    done-IsListed : (page_of h p).bin_idx ≡ bin → IsListed done a (hold pages bin (p ∷ pages bin))
    done-IsListed of_bin = record {
      linked = λ b lt. elim (ℕ_discrete bin b) [
        | yes e ↦
            subst
              (λ t.
                Linked (links_of done) null (bin_head done a t) (hold pages bin (p ∷ pages bin) t))
              e (subst (Linked (links_of done) null (bin_head done a bin)) (sym here) this_bin)
        | no ne ↦
            subst (Linked (links_of done) null (bin_head done a b)) (sym (there b ne))
              (other_bin b lt ne)
      ];
      distinct = λ b lt. elim (ℕ_discrete bin b) [
        | yes e ↦
            subst (λ t. Distinct (hold pages bin (p ∷ pages bin) t)) e
              (subst Distinct (sym here) (absent bin in_range, listed.distinct bin in_range))
        | no ne ↦ subst Distinct (sym (there b ne)) (listed.distinct b lt)
      ];
      binned = λ b q lt m. elim (ℕ_discrete q p) [
        | yes e ↦
            ap (λ t. (page_of done t).bin_idx) e
            ∙ ap (λ (t : Page). t.bin_idx) new_page
            ∙ of_bin
            ∙ of_p b lt (subst (λ t. count t (hold pages bin (p ∷ pages bin) b) ≢ 0) e m)
        | no differ ↦
            let more = old b q differ m in
            ap (λ (t : Page). t.bin_idx) (l.0.page q (listed-ne-null b q lt more))
            ∙ listed.binned b q lt more
      ];
    }
      where
        here : hold pages bin (p ∷ pages bin) bin ≡ p ∷ pages bin
        here = rw ((==_iff bin bin).1 refl) refl

        there : (b : ℕ) → bin ≢ b → hold pages bin (p ∷ pages bin) b ≡ pages b
        there b ne = rw (ne→== bin b ne) refl

        -- only its bin lists the new page
        of_p : (b : ℕ) → b < 75 → count p (hold pages bin (p ∷ pages bin) b) ≢ 0 → bin ≡ b
        of_p b lt m = elim (ℕ_discrete bin b) [
          | yes e ↦ e
          | no ne ↦ absurd (m (ap (count p) (there b ne) ∙ absent b lt))
        ]

        old :
            (b q : ℕ)
            → q ≢ p
            → count q (hold pages bin (p ∷ pages bin) b) ≢ 0
            → count q (pages b) ≢ 0
        old b q differ m = elim (ℕ_discrete bin b) [
          | yes e ↦
              subst (λ t. count q (pages t) ≢ 0) e
                (ground (
                  arith,
                  differ,
                  subst (λ xs. count q xs ≢ 0) here
                      (subst (λ t. count q (hold pages bin (p ∷ pages bin) t) ≢ 0) (sym e) m),
                ))
          | no ne ↦ subst (λ xs. count q xs ≢ 0) (there b ne) m
        ]

  -- An open page that no bin lists becomes the first of its bin; every bin is still a doubly linked list
  -- of distinct pages.
  pub bin_insert_page-IsListed :
      (page_of h p).bin_idx ≡ bin
      → IsListed (bin_insert_page a p h) a (hold pages bin (p ∷ pages bin))
  unfolding bin_insert_page
  bin_insert_page-IsListed of_bin =
      subst (λ b. IsListed (into b) a (hold pages bin (p ∷ pages bin))) (sym of_bin)
        (done-IsListed _ (linked_in (not_null head) refl) of_bin)
    where
      -- the page put into bin `b`
      into : ℕ → Heap
      into b =
          let first = bin_head h a b in
          let linked = put_next p first (put_prev p null h) in
          put_bin a b p (if not_null first then put_prev first p linked else linked)
