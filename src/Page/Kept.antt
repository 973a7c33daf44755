-- ===== src/Page/Kept.antt =====
-- What the operations on one page leave alone: where the page lies, and the memory of other pages.
use malloc.Common.{
  ℕ, ◌+◌, ◌<◌, ◌≤◌, ◌≡◌, ◌≢◌, ◌⊎◌, refl, ◌∙◌, List, [], ◌∷◌, arith, subst, ℕ_discrete,
}
use native.Mathlib.Nat.{mul-le-mul_right}
use malloc.Memory.{Mem}
use malloc.Memory.Chain.{Chain, count}
use malloc.Page.{Page, page_start}
use malloc.Page.Invariant.{IsPage, Holds, slots_at-IsSlot}

pub record IsSamePage (p q : Page) : Type 0 where
  pub segment : q.segment ≡ p.segment
  pub page_index : q.page_index ≡ p.page_index
  pub state : q.state ≡ p.state
  pub slot_size : q.slot_size ≡ p.slot_size
  pub owner_tid : q.owner_tid ≡ p.owner_tid
  pub arena : q.arena ≡ p.arena
  pub bin_idx : q.bin_idx ≡ p.bin_idx
  pub next : q.next ≡ p.next
  pub prev : q.prev ≡ p.prev

abbrev pub IsOutside : Page → ℕ → Type 0
IsOutside p a = (a < page_start p) ⊎ (page_start p + 0x1_0000 ≤ a)

pub record IsKept (p : Page) (m : Mem) (q : Page) (n : Mem) : Type 0 where
  pub same : IsSamePage p q
  pub outside : (a : ℕ) → IsOutside p a → n a ≡ m a

pub IsSamePage-refl : (p : Page) → IsSamePage p p
IsSamePage-refl p = record {
  segment = refl;
  page_index = refl;
  state = refl;
  slot_size = refl;
  owner_tid = refl;
  arena = refl;
  bin_idx = refl;
  next = refl;
  prev = refl;
}

pub same_start : {p q : Page} → IsSamePage p q → page_start q ≡ page_start p
same_start s = rw (s.segment, s.page_index) refl

pub IsKept-trans : {p q r : Page} {m n k : Mem} → IsKept p m q n → IsKept q n r k → IsKept p m r k
IsKept-trans {p} {q} c d = record {
  same = record {
    segment = d.same.segment ∙ c.same.segment;
    page_index = d.same.page_index ∙ c.same.page_index;
    state = d.same.state ∙ c.same.state;
    slot_size = d.same.slot_size ∙ c.same.slot_size;
    owner_tid = d.same.owner_tid ∙ c.same.owner_tid;
    arena = d.same.arena ∙ c.same.arena;
    bin_idx = d.same.bin_idx ∙ c.same.bin_idx;
    next = d.same.next ∙ c.same.next;
    prev = d.same.prev ∙ c.same.prev;
  };
  outside = λ a o. d.outside a (rw (same_start c.same) o) ∙ c.outside a o;
}

-- The addresses of the page's slots, whoever has them.
module _ {p : Page} {m : Mem} {carved : ℕ} {live local remote : List ℕ}
    (v : IsPage p m carved live local remote) where
  pub slots_inside :
      (a : ℕ)
      → count a live + count a local + count a remote ≢ 0
      → (page_start p ≤ a) × (a < page_start p + 0x1_0000)
  slots_inside a some =
      let s = slots_at-IsSlot (page_start p) p.slot_size carved a (λ e. some (v.owned a ∙ e)) in
      (
        omega (arith, s.address),
        omega (
          arith,
          s.address,
          mul-le-mul_right p.slot_size s.index_lt,
          mul-le-mul_right p.slot_size v.room,
          v.shaped.inside,
          v.shaped.slot_small,
        ),
      )

  pub not_outside : (a : ℕ) → IsOutside p a → count a live + count a local + count a remote ≡ 0
  not_outside a o = elim (ℕ_discrete (count a live + count a local + count a remote) 0) [
    | yes e ↦ e
    | no some ↦ absurd (ground (arith, slots_inside a some, o))
  ]

pub Chain-agree :
    (m n : Mem) (q : ℕ) (xs : List ℕ)
    → ((a : ℕ) → count a xs ≢ 0 → m a ≡ n a)
    → Chain m q xs
    → Chain n q xs
Chain-agree m n q [] same c = c
Chain-agree m n q (x ∷ xs) same c = (
  c.0,
  c.1,
  subst (λ t. Chain n t xs) (same x (ground arith))
      (Chain-agree m n (m x) xs (λ a h. same a (ground arith)) c.2),
)

-- A page does not depend on the memory outside of it.
pub Holds-agree :
    {p : Page} {m : Mem} {live : List ℕ} (n : Mem)
    → Holds p m live
    → ((a : ℕ) → page_start p ≤ a → a < page_start p + 0x1_0000 → m a ≡ n a)
    → Holds p n live
Holds-agree {p} {m} n h same = record {
  carved = h.carved;
  local = h.local;
  remote = h.remote;
  page = record {
    shaped = h.page.shaped;
    bumped = h.page.bumped;
    room = h.page.room;
    local_chain =
        Chain-agree m n _ h.local
          (λ a some. let i = slots_inside h.page a (omega (arith, some)) in same a i.0 i.1)
          h.page.local_chain;
    remote_chain =
        Chain-agree m n _ h.remote
          (λ a some. let i = slots_inside h.page a (omega (arith, some)) in same a i.0 i.1)
          h.page.remote_chain;
    used = h.page.used;
    local_count = h.page.local_count;
    remote_count = h.page.remote_count;
    accounted = h.page.accounted;
    owned = h.page.owned;
  };
}
