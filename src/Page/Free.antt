-- ===== src/Page/Free.antt =====
-- page_free_slot_local, page_free_slot_remote and page_is_empty.
use malloc.Common.{
  ℕ, zero, suc, ◌+◌, ◌*◌, ◌^◌, ◌≤◌, ◌<◌, ◌≡◌, ◌≢◌, refl, sym, subst, ap, List, [], ◌∷◌, arith,
  length, true, ◌↔◌, u16, sub16,
}
use native.Mathlib.Nat.{add-zero, mul-pos, le_trans, mul-le-mul_right}
use malloc.Memory.{Mem, write}
use malloc.Memory.Chain.{Chain, Chain-write, count, erase, count-erase, length-erase}
use malloc.Atomic.{tagged_ptr_get, tagged_ptr_tag, tagged_make, treiber_push}
use malloc.Atomic.Tagged.{tagged_make_parts}
use malloc.Page.{Page, page_start, page_free_slot_local, page_free_slot_remote, page_is_empty}
use malloc.Page.Kept.{IsKept, slots_inside}
use malloc.Page.Invariant.{IsPage, Holds, slots_at-IsSlot, IsSlot, capacity_small, once}

more : (n len : ℕ) → n ≡ len → len < 4097 → u16 (n + 1) ≡ suc len
more n len e h = omega arith

module _ {p : Page} {m : Mem} {carved : ℕ} {live local remote : List ℕ}
    (v : IsPage p m carved live local remote) (ptr : ℕ) (held : count ptr live ≢ 0) where
  -- a held slot is on neither free list
  not_local : count ptr local ≡ 0
  not_local = omega (arith, once v ptr, held)

  not_remote : count ptr remote ≡ 0
  not_remote = omega (arith, once v ptr, held)

  slot_of : IsSlot (page_start p) p.slot_size carved ptr
  slot_of =
      slots_at-IsSlot (page_start p) p.slot_size carved ptr
        (λ e. held (omega (arith, v.owned ptr, e)))

  ptr_range : (0 < ptr) × (ptr < 2 ^ 48)
  ptr_range = (
    omega (arith, slot_of.address, v.shaped.start_pos),
    omega (
      arith,
      slot_of.address,
      v.shaped.start_low,
      v.shaped.inside,
      mul-le-mul_right p.slot_size slot_of.index_lt,
      mul-le-mul_right p.slot_size v.room,
      v.shaped.slot_small,
    ),
  )

  linked :
      (q : ℕ) (xs : List ℕ) → count ptr xs ≡ 0 → Chain m q xs → Chain (write m ptr q) ptr (ptr ∷ xs)
  linked q xs out c = (
    refl,
    λ e. absurd (omega (arith, e, ptr_range.0)),
    subst (λ t. Chain (write m ptr q) t xs) here (Chain-write m ptr q q xs out c),
  )
    where
      here : q ≡ write m ptr q ptr
      here = ground arith

  few : p.capacity ≤ 4096
  few = capacity_small v.shaped

  used_less : sub16 p.used 1 ≡ length (erase ptr live)
  used_less = omega (arith, few, v.used, v.accounted, v.room, length-erase ptr live held)

  free_local :
      Holds (page_free_slot_local p m ptr).0 (page_free_slot_local p m ptr).1 (erase ptr live)
  unfolding page_free_slot_local
  free_local = record {
    carved = carved;
    local = ptr ∷ local;
    remote = remote;
    page = record {
      shaped = v.shaped;
      bumped = v.bumped;
      room = v.room;
      local_chain = linked p.local_free local not_local v.local_chain;
      remote_chain = Chain-write m ptr p.local_free _ remote not_remote v.remote_chain;
      used = used_less;
      local_count =
          more p.local_free_count (length local) v.local_count
            (omega (arith, v.accounted, v.room, few));
      remote_count = v.remote_count;
      accounted = omega (arith, v.accounted, length-erase ptr live held);
      owned = λ a. omega (arith, v.owned a, count-erase ptr a live held);
    };
  }

  -- the tag of the new head word
  abbrev new_tag : ℕ
  new_tag = tagged_ptr_tag p.remote_free + 1

  head_ptr : tagged_ptr_get (tagged_make ptr new_tag) ≡ ptr
  head_ptr = (tagged_make_parts ptr new_tag ptr_range.1).0

  free_remote :
      Holds (page_free_slot_remote p m ptr).0 (page_free_slot_remote p m ptr).1 (erase ptr live)
  unfolding page_free_slot_remote treiber_push
  free_remote = record {
    carved = carved;
    local = local;
    remote = ptr ∷ remote;
    page = record {
      shaped = v.shaped;
      bumped = v.bumped;
      room = v.room;
      local_chain =
          subst (λ t. Chain (write m t (tagged_ptr_get p.remote_free)) p.local_free local)
            (sym (add-zero ptr)) (Chain-write m ptr _ p.local_free local not_local v.local_chain);
      remote_chain =
          subst
            (λ t.
              Chain (write m t (tagged_ptr_get p.remote_free))
                (tagged_ptr_get (tagged_make ptr new_tag)) (ptr ∷ remote))
            (sym (add-zero ptr))
            (subst (λ t. Chain (write m ptr (tagged_ptr_get p.remote_free)) t (ptr ∷ remote))
              (sym head_ptr)
              (linked (tagged_ptr_get p.remote_free) remote not_remote v.remote_chain));
      used = used_less;
      local_count = v.local_count;
      remote_count =
          more p.remote_free_count (length remote) v.remote_count
            (omega (arith, v.accounted, v.room, few));
      accounted = omega (arith, v.accounted, length-erase ptr live held);
      owned = λ a. omega (arith, v.owned a, count-erase ptr a live held);
    };
  }

-- The owner's free of a held slot: the page is valid, and holds that slot once less.
pub page_free_slot_local-Holds :
    {p : Page} {m : Mem} {live : List ℕ} (ptr : ℕ)
    → Holds p m live
    → count ptr live ≢ 0
    → let r = page_free_slot_local p m ptr in Holds r.0 r.1 (erase ptr live)
page_free_slot_local-Holds ptr h held = free_local h.page ptr held

-- Another thread's free of a held slot does the same through the remote list.
pub page_free_slot_remote-Holds :
    {p : Page} {m : Mem} {live : List ℕ} (ptr : ℕ)
    → Holds p m live
    → count ptr live ≢ 0
    → let r = page_free_slot_remote p m ptr in Holds r.0 r.1 (erase ptr live)
page_free_slot_remote-Holds ptr h held = free_remote h.page ptr held

-- A free touches the page and its memory only.
pub page_free_slot_local-IsKept :
    {p : Page} {m : Mem} {live : List ℕ} (ptr : ℕ)
    → Holds p m live
    → count ptr live ≢ 0
    → let r = page_free_slot_local p m ptr in IsKept p m r.0 r.1
unfolding page_free_slot_local
page_free_slot_local-IsKept {p} ptr h held = record {
  same = ground arith;
  outside = λ a out. ground (arith, out, slots_inside h.page ptr (omega (arith, held)));
}

pub page_free_slot_remote-IsKept :
    {p : Page} {m : Mem} {live : List ℕ} (ptr : ℕ)
    → Holds p m live
    → count ptr live ≢ 0
    → let r = page_free_slot_remote p m ptr in IsKept p m r.0 r.1
unfolding page_free_slot_remote treiber_push
page_free_slot_remote-IsKept {p} ptr h held = record {
  same = ground arith;
  outside = λ a out. ground (arith, out, slots_inside h.page ptr (omega (arith, held)));
}

nil_of_length : (xs : List ℕ) → length xs ≡ 0 → xs ≡ []
nil_of_length [] h = refl
nil_of_length (x ∷ xs) h = absurd (omega arith)

pos_of_mul : (c z : ℕ) → 0 < c * z → 0 < c
pos_of_mul zero z h = absurd (omega arith)
pos_of_mul (suc c) z h = omega arith

-- page_is_empty says exactly that some slot has been carved and none is held.
pub page_is_empty_iff :
    {p : Page} {m : Mem} {carved : ℕ} {live local remote : List ℕ}
    → IsPage p m carved live local remote
    → (page_is_empty p ≡ true) ↔ ((live ≡ []) × (0 < carved))
unfolding page_is_empty
page_is_empty_iff {p} {carved} {live} v = (
  λ e. (
    nil_of_length live (ground (arith, v.used)),
    pos_of_mul carved p.slot_size (ground (arith, v.bumped)),
  ),
  λ (none_held, some_carved). ground (
    arith,
    v.used,
    ap length none_held,
    v.bumped,
    mul-pos some_carved (le_trans (omega arith) v.shaped.slot_small),
  ),
)
