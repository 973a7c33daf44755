-- ===== src/Arena/Take.antt =====
-- Carving the next virgin slot of an open page, in src/arena.c and src/slab.c.
use malloc.Common.{
  ℕ, ◌*◌, ◌<◌, ◌≡◌, ◌≢◌, refl, sym, ap, ◌∙◌, subst, ◌∷◌, arith, ℕ_discrete, dec_lt, ==_iff, ne→==,
}
use native.Mathlib.Nat.{mul-le-mul_right}
use malloc.Memory.{Mem, null}
use malloc.Memory.Chain.{count}
use malloc.Page.{Page, bump}
use malloc.Page.Invariant.{Holds}
use malloc.Page.Alloc.{Fresh, bump-Fresh}
use malloc.Heap.{Arena, Heap, seg_of, segment_of, page_of, put_arena}
use malloc.Heap.Refs.{segment_of-put_self, segment_of-put_ne}
use malloc.Heap.Valid.{IsOpen, IsHeap, Live, hold, put_arena-IsHeap, put_arena-IsOpen}
use malloc.Heap.Frame.{same-IsRewrite}
use malloc.Heap.Update.{IsRewrite, rewritten, rewritten-IsHeap, stays_open, here, there}
use malloc.Arena.{carve}
use malloc.Arena.Scan.{IsExtended, IsExtended-refl}

module _ (h : Heap) (p : ℕ) (page : Page) (m : Mem) (live : Live) (v : IsHeap h live)
    (o : IsOpen h p) where
  -- Seen from a heap before, in which the page may still have been closed.
  pub rewritten-IsExtended :
      (before : Heap)
      → IsExtended before h
      → IsRewrite (page_of h p) page
      → page.slot_size ≡ (page_of h p).slot_size
      → (IsOpen before p → page.next ≡ (page_of h p).next)
      → IsExtended before (rewritten h p page m)
  rewritten-IsExtended before x r size next = record {
    opened = λ q o'. stays_open h p page m live v o r q (x.opened q o');
    size = λ q o'. size_kept q (ℕ_discrete p q) ∙ x.size q o';
    next = λ q o'. next_kept q o' (ℕ_discrete p q) ∙ x.next q o';
    registered = x.registered;
    next_seg = λ s ne c. seg_kept s (ℕ_discrete (seg_of p) s) ∙ x.next_seg s ne c;
    classes = x.classes;
  }
    where
      size_kept :
          (q : ℕ)
          → Dec (p ≡ q)
          → (page_of (rewritten h p page m) q).slot_size ≡ (page_of h q).slot_size
      size_kept q (yes e) =
          subst (λ t. (page_of (rewritten h p page m) t).slot_size ≡ (page_of h t).slot_size) e
            (ap (λ t. t.slot_size) (here h p page m live v o r) ∙ size)
      size_kept q (no ne) = ap (λ t. t.slot_size) (there h p page m live v o r q ne)

      next_kept :
          (q : ℕ)
          → IsOpen before q
          → Dec (p ≡ q)
          → (page_of (rewritten h p page m) q).next ≡ (page_of h q).next
      next_kept q o' (yes e) =
          subst (λ t. (page_of (rewritten h p page m) t).next ≡ (page_of h t).next) e
            (ap (λ t. t.next) (here h p page m live v o r)
              ∙ next (subst (IsOpen before) (sym e) o'))
      next_kept q o' (no ne) = ap (λ t. t.next) (there h p page m live v o r q ne)

      seg_kept :
          (s : ℕ)
          → Dec (seg_of p ≡ s)
          → (segment_of (rewritten h p page m) s).next ≡ (segment_of h s).next
      seg_kept s (yes e) =
          subst (λ t. (segment_of (rewritten h p page m) t).next ≡ (segment_of h t).next) e
            (ap (λ t. t.next) (segment_of-put_self h (seg_of p) _))
      seg_kept s (no other) = ap (λ t. t.next) (segment_of-put_ne h (seg_of p) s _ other)

-- A slot of an open page that nobody held is now held; the rest of the heap is as it was.
pub record IsTaken (h : Heap) (live : Live) (p : ℕ) (r : ℕ × Heap) : Type 0 where
  pub some_slot : r.0 ≢ null
  pub new : count r.0 (live p) ≡ 0
  pub valid : IsHeap r.1 (hold live p (r.0 ∷ live p))
  pub extended : IsExtended h r.1
  pub bins : (a : ℕ) → (r.1.arena a).bins ≡ (h.arena a).bins
  pub segments : (a : ℕ) → (r.1.arena a).segments ≡ (h.arena a).segments

pub count_alloc-IsExtended :
    (h g : Heap) (a : ℕ) (arena : Arena) → IsExtended h g → IsExtended h (put_arena a arena g)
count_alloc-IsExtended h g a arena x = record {
  opened = λ p o. put_arena-IsOpen g a arena p (x.opened p o);
  size = x.size;
  next = x.next;
  registered = x.registered;
  next_seg = x.next_seg;
  classes = x.classes;
}

pub kept {ℓ} :
    {A : Type ℓ} (f : Arena → A) (h : Heap) (a : ℕ) (arena : Arena)
    → f arena ≡ f (h.arena a)
    → (b : ℕ) → f ((put_arena a arena h).arena b) ≡ f (h.arena b)
kept f h a arena e b = elim (ℕ_discrete a b) [
  | yes same ↦ rw ((==_iff a b).1 same) (e ∙ ap (λ t. f (h.arena t)) same)
  | no other ↦ rw (ne→== a b other) refl
]

below_capacity : (c n z : ℕ) → c * z < n * z → c < n
below_capacity c n z lt = elim (dec_lt c n) [
  | yes h ↦ h
  | no ge ↦ absurd (omega (arith, mul-le-mul_right {m = n} {n = c} z (omega arith)))
]

pub carve-IsTaken :
    (a p : ℕ) (h : Heap) (live : Live)
    → IsHeap h live
    → IsOpen h p
    → (page_of h p).bump_offset < (page_of h p).bump_end
    → IsTaken h live p (carve a p h)
unfolding carve
carve-IsTaken a p h live v o virgin = record {
  some_slot = f.given;
  new = f.new;
  valid = put_arena-IsHeap _ _ a _ (
      rewritten-IsHeap h p (bump (page_of h p)).1 h.mem live v o r (_ ∷ live p) f.holds
        (λ q ne o'. v.page q o'));
  extended = count_alloc-IsExtended h _ a _ (
      rewritten-IsExtended h p (bump (page_of h p)).1 h.mem live v o h (IsExtended-refl h) r
        f.kept.same.slot_size (λ _. f.kept.same.next));
  bins = λ b. kept (λ x. x.bins) h a _ refl b;
  segments = λ b. kept (λ x. x.segments) h a _ refl b;
}
  where
    hp : Holds (page_of h p) h.mem (live p)
    hp = v.page p o

    f : Fresh (page_of h p) h.mem (live p) ((bump (page_of h p)).0, (bump (page_of h p)).1, h.mem)
    f = bump-Fresh hp.local hp.page (
        below_capacity _ _ (page_of h p).slot_size
          (omega (arith, virgin, hp.page.bumped, hp.page.shaped.bump_stop)))

    r : IsRewrite (page_of h p) (bump (page_of h p)).1
    r = same-IsRewrite o.in_use f.kept.same
