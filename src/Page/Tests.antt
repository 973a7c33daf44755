-- ===== src/Page/Tests.antt =====
-- A page of 32 KB slots at 0x400000 + 64 KB: two slots, carved, freed and carved again.
use malloc.Common.{ℕ, ◌≡◌, ◌≢◌, refl, some, List, [], ◌∷◌, arith, Returns}
use mathlib.Core.Option
use malloc.Memory.{Mem}
use malloc.Memory.Chain.{count, erase}
use malloc.Atomic.{tagged_ptr_get, tagged_ptr_tag, tagged_make, treiber_push, treiber_collect}
use malloc.Page.{
  Page, active, page_init, page_alloc_slot, page_free_slot_local, page_free_slot_remote,
  page_is_empty, page_collect_remote, pop_local, bump, take_local, walk, round_slot,
}
use malloc.Page.Invariant.{IsPage, Holds}
use malloc.Page.Init.{page_init-IsPage}
use malloc.Page.Alloc.{Outcome, bump-Fresh, page_alloc_slot-Outcome}
use malloc.Page.Collect.{Collected, page_collect_remote-Collected}
use malloc.Page.Free.{page_free_slot_local-Holds, page_free_slot_remote-Holds}

program : Unit {0}
unfolding page_init page_alloc_slot page_free_slot_local page_free_slot_remote page_is_empty
    page_collect_remote pop_local bump take_local walk round_slot tagged_ptr_get tagged_ptr_tag
    tagged_make treiber_push treiber_collect
program = tt

abbrev blank : Page
blank = record {
  arena = 0;
  segment = 0;
  owner_tid = 0;
  bin_idx = 0;
  state = active;
  slot_size = 0;
  capacity = 0;
  used = 0;
  bump_offset = 0;
  bump_end = 0;
  local_free = 0;
  local_free_count = 0;
  remote_free = 0;
  remote_free_count = 0;
  next = 0;
  prev = 0;
  page_index = 0;
}

abbrev zeros : Mem
zeros a = 0

abbrev first : ℕ
first = 0x41_0000

abbrev page0 : Page
page0 = page_init blank 0x40_0000 7 1 66 0x7ff8

-- one slot held
abbrev page1 : Page
page1 = (bump page0).1

-- the slot freed by another thread
abbrev page2 : Page
page2 = (page_free_slot_remote page1 zeros first).0

abbrev mem2 : Mem
mem2 = (page_free_slot_remote page1 zeros first).1

size_rounded : page0.slot_size ≡ 0x8000
unfolding program
size_rounded = refl

carves_first : page_alloc_slot page0 zeros ≡ some (first, page1, zeros)
unfolding program
carves_first = refl

-- the remote free comes back when the page has no other slot
third_is_first :
    Option.map (λ r. r.0) (page_alloc_slot (record page2 { bump_offset = 0x1_0000 }) mem2)
    ≡ some first
unfolding program
third_is_first = refl

page0_valid : IsPage page0 zeros 0 [] [] []
page0_valid =
    (page_init-IsPage blank zeros 0x40_0000 7 1 66 0x7ff8 (omega arith) (omega arith) (omega arith)
      (omega arith) (omega arith)).0

page0_holds : Holds page0 zeros []
page0_holds = record { carved = 0; local = []; remote = []; page = page0_valid }

page_alloc_slot-Outcome_example : Returns (page_alloc_slot page0 zeros) (Outcome page0 zeros [])
page_alloc_slot-Outcome_example = page_alloc_slot-Outcome page0_holds

page1_holds : Holds page1 zeros (first ∷ [])
unfolding program
page1_holds = (bump-Fresh [] page0_valid (omega arith)).holds

first_held : count first (first ∷ []) ≢ 0
first_held = omega arith

page_free_slot_local-Holds_example :
    let r = page_free_slot_local page1 zeros first in Holds r.0 r.1 (erase first (first ∷ []))
page_free_slot_local-Holds_example = page_free_slot_local-Holds first page1_holds first_held

page_free_slot_remote-Holds_example : Holds page2 mem2 (erase first (first ∷ []))
page_free_slot_remote-Holds_example = page_free_slot_remote-Holds first page1_holds first_held

abbrev page2_valid : Holds page2 mem2 []
page2_valid = page_free_slot_remote-Holds first page1_holds first_held

page_collect_remote-Collected_example :
    Returns
      (page_collect_remote page2 mem2)
      (Collected page2 mem2 page2_valid.carved [] page2_valid.local page2_valid.remote)
page_collect_remote-Collected_example =
    page_collect_remote-Collected page2_valid.remote page2_valid.page

abbrev no_slots : List ℕ
no_slots = []
