-- ===== src/Arena/Relink.antt =====
-- A heap in which only the links of open pages have changed: writes of `next` and `prev` in src/arena.c.
use malloc.Common.{
  ℕ, ◌≡◌, ◌≢◌, refl, sym, ap, ◌∙◌, subst, ℕ_discrete, if◌then◌else◌, ◌==◌, ne→==, ==_iff,
}
use malloc.Memory.{null}
use malloc.Page.{Page}
use malloc.Heap.{Heap, Arena, segment_of, page_of, put_arena}
use malloc.Heap.Valid.{IsOpen, IsHeap, Live, put_arena-IsHeap, put_arena-IsOpen}
use malloc.Heap.Refs.{segment_of-put_self, segment_of-put_ne}
use malloc.Heap.{seg_of, put_page}
use malloc.Arena.{put_next, put_prev}
use malloc.Arena.Moved.{moved-IsHeap, moved-IsOpen, moved_here, moved_there}

-- The links of the pages of g are `next` and `prev`; all else but the arenas is as in h.
pub record IsRelinked (h : Heap) (live : Live) (next prev : ℕ → ℕ) (g : Heap) : Type 0 where
  pub valid : IsHeap g live
  pub opened : (p : ℕ) → IsOpen h p → IsOpen g p
  pub page :
      (p : ℕ) → p ≢ null → page_of g p ≡ record (page_of h p) { next = next p; prev = prev p }
  pub segment : (s : ℕ) → (segment_of g s).next ≡ (segment_of h s).next
  pub registry : g.segs.registry ≡ h.segs.registry
  pub os : g.segs.os ≡ h.segs.os
  pub classes : g.classes ≡ h.classes

pub IsRelinked-refl :
    (h : Heap) (live : Live)
    → IsHeap h live
    → IsRelinked h live (λ p. (page_of h p).next) (λ p. (page_of h p).prev) h
IsRelinked-refl h live v = record {
  valid = v;
  opened = λ p o. o;
  page = λ p ne. refl;
  segment = λ s. refl;
  registry = refl;
  os = refl;
  classes = refl;
}

put_page-next_seg :
    (g : Heap) (q : ℕ) (page : Page) (s : ℕ)
    → (segment_of (put_page q page g) s).next ≡ (segment_of g s).next
put_page-next_seg g q page s = elim (ℕ_discrete (seg_of q) s) [
  | yes e ↦
      subst (λ t. (segment_of (put_page q page g) t).next ≡ (segment_of g t).next) e
        (ap (λ t. t.next) (segment_of-put_self g (seg_of q) _))
  | no ne ↦ ap (λ t. t.next) (segment_of-put_ne g (seg_of q) s _ ne)
]

module _ {h : Heap} {live : Live} {next prev : ℕ → ℕ} {g : Heap} (r : IsRelinked h live next prev g)
    (q x : ℕ) (o : IsOpen g q) (some_q : q ≢ null) where
  pub put_next-IsRelinked :
      IsRelinked h live (λ p. if p == q then x else next p) prev (put_next q x g)
  put_next-IsRelinked = record {
    valid = moved-IsHeap g q live r.valid o x (page_of g q).prev (page_of g q).owner_tid;
    opened = λ p op.
        moved-IsOpen g q live r.valid o x (page_of g q).prev (page_of g q).owner_tid p
          (r.opened p op);
    page = λ p ne. elim (ℕ_discrete q p) [
      | yes e ↦
          subst
            (λ t.
              page_of (put_next q x g) t
              ≡ record (page_of h t) { next = if t == q then x else next t; prev = prev t })
            e
            (rw ((==_iff q q).1 refl) (
              moved_here g q live r.valid o x (page_of g q).prev (page_of g q).owner_tid
              ∙ ap (λ (t : Page). record t { next = x }) (r.page q some_q)))
      | no other ↦ rw (ne→== p q (λ e. other (sym e))) (
          moved_there g q live r.valid o x (page_of g q).prev (page_of g q).owner_tid p other
          ∙ r.page p ne)
    ];
    segment = λ s. put_page-next_seg g q _ s ∙ r.segment s;
    registry = r.registry;
    os = r.os;
    classes = r.classes;
  }

  pub put_prev-IsRelinked :
      IsRelinked h live next (λ p. if p == q then x else prev p) (put_prev q x g)
  put_prev-IsRelinked = record {
    valid = moved-IsHeap g q live r.valid o (page_of g q).next x (page_of g q).owner_tid;
    opened = λ p op.
        moved-IsOpen g q live r.valid o (page_of g q).next x (page_of g q).owner_tid p
          (r.opened p op);
    page = λ p ne. elim (ℕ_discrete q p) [
      | yes e ↦
          subst
            (λ t.
              page_of (put_prev q x g) t
              ≡ record (page_of h t) { next = next t; prev = if t == q then x else prev t })
            e
            (rw ((==_iff q q).1 refl) (
              moved_here g q live r.valid o (page_of g q).next x (page_of g q).owner_tid
              ∙ ap (λ (t : Page). record t { prev = x }) (r.page q some_q)))
      | no other ↦ rw (ne→== p q (λ e. other (sym e))) (
          moved_there g q live r.valid o (page_of g q).next x (page_of g q).owner_tid p other
          ∙ r.page p ne)
    ];
    segment = λ s. put_page-next_seg g q _ s ∙ r.segment s;
    registry = r.registry;
    os = r.os;
    classes = r.classes;
  }

-- The links matter at addresses other than NULL only.
pub IsRelinked-as :
    {h : Heap} {live : Live} {next prev next' prev' : ℕ → ℕ} {g : Heap}
    → IsRelinked h live next prev g
    → ((p : ℕ) → p ≢ null → next' p ≡ next p)
    → ((p : ℕ) → p ≢ null → prev' p ≡ prev p)
    → IsRelinked h live next' prev' g
IsRelinked-as {h} r nexts prevs = record {
  valid = r.valid;
  opened = r.opened;
  page = λ p ne. rw (nexts p ne, prevs p ne) (r.page p ne);
  segment = r.segment;
  registry = r.registry;
  os = r.os;
  classes = r.classes;
}

-- A write to the arenas.
pub put_arena-IsRelinked :
    {h : Heap} {live : Live} {next prev : ℕ → ℕ} {g : Heap} (a : ℕ) (arena : Arena)
    → IsRelinked h live next prev g
    → IsRelinked h live next prev (put_arena a arena g)
put_arena-IsRelinked {live} {g} a arena r = record {
  valid = put_arena-IsHeap g live a arena r.valid;
  opened = λ p o. put_arena-IsOpen g a arena p (r.opened p o);
  page = r.page;
  segment = r.segment;
  registry = r.registry;
  os = r.os;
  classes = r.classes;
}
