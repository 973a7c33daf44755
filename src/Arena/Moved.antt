-- ===== src/Arena/Moved.antt =====
-- An open page with its links or its owner changed.
use malloc.Common.{ℕ, ◌≡◌, ◌≢◌, refl, ap, subst, fun_ext, List, ℕ_discrete, ne→==, ==_iff}
use malloc.Memory.{Mem}
use malloc.Page.{Page}
use malloc.Page.Invariant.{Holds}
use malloc.Heap.{Heap, page_of}
use malloc.Heap.Valid.{IsOpen, IsHeap, Live, hold}
use malloc.Heap.Update.{IsRewrite, rewritten, rewritten-IsHeap, stays_open, here, there}
use malloc.Arena.Scan.{IsExtended}
use malloc.Arena.Take.{rewritten-IsExtended}

links-Holds :
    (p : Page) (m : Mem) (live : List ℕ) (n q t : ℕ)
    → Holds p m live
    → Holds (record p { next = n; prev = q; owner_tid = t }) m live
links-Holds p m live n q t h = record {
  carved = h.carved;
  local = h.local;
  remote = h.remote;
  page = record {
    shaped = h.page.shaped;
    bumped = h.page.bumped;
    room = h.page.room;
    local_chain = h.page.local_chain;
    remote_chain = h.page.remote_chain;
    used = h.page.used;
    local_count = h.page.local_count;
    remote_count = h.page.remote_count;
    accounted = h.page.accounted;
    owned = h.page.owned;
  };
}

pub hold_same : (live : Live) (p : ℕ) → hold live p (live p) ≡ live
hold_same live p = fun_ext (λ q. elim (ℕ_discrete p q) [
  | yes e ↦ rw ((==_iff p q).1 e) (ap live e)
  | no ne ↦ rw (ne→== p q ne) refl
])

module _ (h : Heap) (p : ℕ) (live : Live) (v : IsHeap h live) (o : IsOpen h p) (n q t : ℕ) where
  abbrev pub moved : Page
  moved = record (page_of h p) { next = n; prev = q; owner_tid = t }

  moved-IsRewrite : IsRewrite (page_of h p) moved
  moved-IsRewrite = record { segment = refl; page_index = refl; in_use = o.in_use }

  pub moved-IsHeap : IsHeap (rewritten h p moved h.mem) live
  moved-IsHeap = subst (IsHeap (rewritten h p moved h.mem)) (hold_same live p) (
      rewritten-IsHeap h p moved h.mem live v o moved-IsRewrite (live p)
        (links-Holds (page_of h p) h.mem (live p) n q t (v.page p o)) (λ r ne o'. v.page r o'))

  pub moved-IsOpen : (r : ℕ) → IsOpen h r → IsOpen (rewritten h p moved h.mem) r
  moved-IsOpen = stays_open h p moved h.mem live v o moved-IsRewrite

  pub moved_here : page_of (rewritten h p moved h.mem) p ≡ moved
  moved_here = here h p moved h.mem live v o moved-IsRewrite

  pub moved_there : (r : ℕ) → p ≢ r → page_of (rewritten h p moved h.mem) r ≡ page_of h r
  moved_there = there h p moved h.mem live v o moved-IsRewrite

  pub moved-IsExtended :
      (before : Heap)
      → IsExtended before h
      → (IsOpen before p → n ≡ (page_of h p).next)
      → IsExtended before (rewritten h p moved h.mem)
  moved-IsExtended before x same =
      rewritten-IsExtended h p moved h.mem live v o before x moved-IsRewrite refl same
