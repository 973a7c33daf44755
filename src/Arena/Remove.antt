-- ===== src/Arena/Remove.antt =====
-- bin_remove_page of src/arena.c, as a change of links and of the head of a bin.
use malloc.Common.{
  ℕ, ◌<◌, ◌≡◌, ◌≢◌, refl, sym, ap, ◌∙◌, subst, length, get_or, length-set, get_or-set_self,
  get_or-set_ne, if◌then◌else◌, ◌==◌, ne→==, ==_iff, true, false, Bool, arith,
}
use malloc.Memory.{null, not_null}
use malloc.Heap.{Heap, page_of}
use malloc.Heap.Valid.{IsOpen, IsHeap, Live}
use malloc.Arena.{put_next, put_prev, put_bin, bin_head, bin_remove_page}
use malloc.Arena.Relink.{
  IsRelinked, IsRelinked-refl, put_next-IsRelinked, put_prev-IsRelinked, IsRelinked-as,
  put_arena-IsRelinked,
}

-- The links around `p` lead past it and its own are NULL; the bin starts after `p` if it started there.
pub record IsRemoved (h : Heap) (live : Live) (a bin p : ℕ) (g : Heap) : Type 0 where
  pub links :
      IsRelinked h live
        (λ y.
          if y == p
          then null
          else if y == (page_of h p).prev
          then (page_of h p).next
          else (page_of h y).next)
        (λ y.
          if y == p
          then null
          else if y == (page_of h p).next
          then (page_of h p).prev
          else (page_of h y).prev)
        g
  pub others : (b : ℕ) → a ≢ b → g.arena b ≡ h.arena b
  pub sized : length (g.arena a).bins ≡ length (h.arena a).bins
  pub head :
      bin < length (h.arena a).bins
      → bin_head g a bin ≡ (if bin_head h a bin == p then (page_of h p).next else bin_head h a bin)
  pub heads : (b : ℕ) → bin ≢ b → bin_head g a b ≡ bin_head h a b
  pub segments : (g.arena a).segments ≡ (h.arena a).segments

module _ (h : Heap) (live : Live) (v : IsHeap h live) (a p : ℕ) (o : IsOpen h p)
    (some_page : p ≢ null) (before : (page_of h p).prev ≢ null → IsOpen h (page_of h p).prev)
    (after : (page_of h p).next ≢ null → IsOpen h (page_of h p).next) where
  abbrev nextp : ℕ
  nextp = (page_of h p).next

  abbrev prevp : ℕ
  prevp = (page_of h p).prev

  abbrev nexts : ℕ → ℕ
  nexts y = if y == prevp then nextp else (page_of h y).next

  abbrev prevs : ℕ → ℕ
  prevs y = if y == nextp then prevp else (page_of h y).prev

  abbrev Links : (next prev : ℕ → ℕ) → Heap → Type 0
  Links next prev g = IsRelinked h live next prev g × (g.arena ≡ h.arena)

  past_next :
      (b : Bool)
      → not_null prevp ≡ b
      → Links nexts (λ y. (page_of h y).prev) (if b then put_next prevp nextp h else h)
  past_next true e =
      let some_prev : prevp ≢ null = λ z. absurd (ground (arith, e, z)) in
      (
        put_next-IsRelinked (IsRelinked-refl h live v) prevp nextp (before some_prev) some_prev,
        refl,
      )
  past_next false e = (
    IsRelinked-as (IsRelinked-refl h live v)
        (λ y ne. rw (ne→== y prevp (λ same. ne (ground (arith, e, same)))) refl) (λ y ne. refl),
    refl,
  )

  past_prev :
      (g : Heap)
      → Links nexts (λ y. (page_of h y).prev) g
      → (b : Bool) → not_null nextp ≡ b
      → Links nexts prevs (if b then put_prev nextp prevp g else g)
  past_prev g l true e =
      let some_next : nextp ≢ null = λ z. absurd (ground (arith, e, z)) in
      (put_prev-IsRelinked l.0 nextp prevp (l.0.opened nextp (after some_next)) some_next, l.1)
  past_prev g l false e = (
    IsRelinked-as l.0 (λ y ne. refl)
        (λ y ne. rw (ne→== y nextp (λ same. ne (ground (arith, e, same)))) refl),
    l.1,
  )

  module _ (bin : ℕ) where
    -- The head of the bin moved on, where it was `p`.
    record IsHeaded (g : Heap) : Type 0 where
      links : IsRelinked h live nexts prevs g
      others : (b : ℕ) → a ≢ b → g.arena b ≡ h.arena b
      sized : length (g.arena a).bins ≡ length (h.arena a).bins
      head :
          bin < length (h.arena a).bins
          → bin_head g a bin ≡ (if bin_head h a bin == p then nextp else bin_head h a bin)
      heads : (b : ℕ) → bin ≢ b → bin_head g a b ≡ bin_head h a b
      segments : (g.arena a).segments ≡ (h.arena a).segments

    headed :
        (g : Heap)
        → Links nexts prevs g
        → (b : Bool) → (bin_head g a bin == p) ≡ b
        → IsHeaded (if b then put_bin a bin nextp g else g)
    headed g l true e = record {
      links = put_arena-IsRelinked a _ l.0;
      others = λ b ne. rw (ne→== a b ne) (ap (λ f. f b) l.1);
      sized = rw ((==_iff a a).1 refl) (length-set _ _ _ ∙ ap (λ f. length (f a).bins) l.1);
      head = λ lt.
          rw ((==_iff a a).1 refl, sym (ap (λ f. get_or (f a).bins bin null == p) l.1) ∙ e)
            (get_or-set_self (g.arena a).bins bin nextp null
              (subst (λ f. bin < length (f a).bins) (sym l.1) lt));
      heads = λ b ne. rw ((==_iff a a).1 refl) (
          get_or-set_ne (g.arena a).bins bin b nextp null ne
          ∙ ap (λ f. get_or (f a).bins b null) l.1);
      segments = rw ((==_iff a a).1 refl) (ap (λ f. (f a).segments) l.1);
    }
    headed g l false e = record {
      links = l.0;
      others = λ b ne. ap (λ f. f b) l.1;
      sized = ap (λ f. length (f a).bins) l.1;
      head = λ lt.
          rw (sym (ap (λ f. get_or (f a).bins bin null == p) l.1) ∙ e)
            (ap (λ f. get_or (f a).bins bin null) l.1);
      heads = λ b ne. ap (λ f. get_or (f a).bins b null) l.1;
      segments = ap (λ f. (f a).segments) l.1;
    }

    cleared :
        (g : Heap) → IsHeaded g → IsRemoved h live a bin p (put_prev p null (put_next p null g))
    cleared g r =
        let off = put_next-IsRelinked r.links p null (r.links.opened p o) some_page in
        record {
          links =
              IsRelinked-as (put_prev-IsRelinked off p null (off.opened p o) some_page)
                (λ y ne. refl) (λ y ne. refl);
          others = r.others;
          sized = r.sized;
          head = r.head;
          heads = r.heads;
          segments = r.segments;
        }

  -- bin_remove_page once it has read the links that `p` has in h1
  abbrev from : Heap → (bin n : ℕ) → Heap
  from h1 bin n =
      let h2 = if not_null n then put_prev n (page_of h1 p).prev h1 else h1 in
      let h3 = if bin_head h2 a bin == p then put_bin a bin (page_of h2 p).next h2 else h2 in
      put_prev p null (put_next p null h3)

  from-IsRemoved :
      (h1 : Heap)
      → Links nexts (λ y. (page_of h y).prev) h1
      → (bin : ℕ) → IsRemoved h live a bin p (from h1 bin (page_of h1 p).next)
  from-IsRemoved h1 l bin =
      subst (λ n. IsRemoved h live a bin p (from h1 bin n)) (sym same_next)
        (subst
          (λ q.
            IsRemoved h live a bin p (last (if not_null nextp then put_prev nextp q h1 else h1)))
          (sym same_prev) (closing _ (past_prev h1 l (not_null nextp) refl)))
    where
      last : Heap → Heap
      last h2 =
          let h3 = if bin_head h2 a bin == p then put_bin a bin (page_of h2 p).next h2 else h2 in
          put_prev p null (put_next p null h3)

      same_next : (page_of h1 p).next ≡ nextp
      same_next = ap (λ t. t.next) (l.0.page p some_page) ∙ ground arith

      same_prev : (page_of h1 p).prev ≡ prevp
      same_prev = ap (λ t. t.prev) (l.0.page p some_page)

      closing : (h2 : Heap) → Links nexts prevs h2 → IsRemoved h live a bin p (last h2)
      closing h2 r =
          let same : (page_of h2 p).next ≡ nextp =
            ap (λ t. t.next) (r.0.page p some_page) ∙ ground arith in
          subst
            (λ n. IsRemoved h live a bin p (
              put_prev p null
                (put_next p null (if bin_head h2 a bin == p then put_bin a bin n h2 else h2))))
            (sym same) (cleared bin _ (headed bin h2 r (bin_head h2 a bin == p) refl))

  pub bin_remove_page-IsRemoved : IsRemoved h live a (page_of h p).bin_idx p (bin_remove_page a p h)
  unfolding bin_remove_page
  bin_remove_page-IsRemoved =
      from-IsRemoved (if not_null prevp then put_next prevp nextp h else h)
        (past_next (not_null prevp) refl) (page_of h p).bin_idx
