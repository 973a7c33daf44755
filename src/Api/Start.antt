-- ===== src/Api/Start.antt =====
-- malloc_ensure_init of src/init.c leaves the state that the other functions rely on.
use malloc.Common.{
  ℕ, ◌-◌, ◌≤◌, ◌≡◌, refl, ap, ◌∙◌, [], length, get_or, if◌then◌else◌, get_or-replicate, leb, ◌&&◌,
  arith,
}
use malloc.Memory.{null}
use malloc.SizeClass.Table.{tables}
use malloc.Heap.{Arena}
use malloc.Heap.Valid.{IsHeap}
use malloc.Init.{Global, set_up}
use malloc.Init.Ready.{IsReady, set_up-IsReady}
use malloc.Arena.{arena_init}
use malloc.Arena.Scan.{IsArena}
use malloc.Arena.Lists.{IsListed}
use malloc.Thread.{State}
use malloc.Api.{malloc_ensure_init}

-- No slot is held; four arenas without any page or segment; no large allocation.
pub record IsStarted (s : State) : Type 0 where
  pub initialized : s.initialized ≡ 2
  pub heap : IsHeap s.heap (λ p. [])
  pub arenas : (a : ℕ) → 1 ≤ a → a ≤ 4 → IsArena s.heap a (λ b. []) []
  pub listed : (a : ℕ) → 1 ≤ a → a ≤ 4 → IsListed s.heap a (λ b. [])
  pub ids : (a : ℕ) → 1 ≤ a → a ≤ 4 → (s.heap.arena a).id ≡ a - 1
  pub arena_count : s.heap.arena_count ≡ 4
  pub arena_next : s.heap.arena_next ≡ 0
  pub classes : s.heap.classes ≡ tables
  pub large_list : s.large.large_list ≡ null
  pub bootstrap_used : s.bootstrap_used ≡ 0

module _ (s : State) (sized : length s.heap.segs.registry ≡ 256)
    (bins : length s.heap.classes.bin_size ≡ 75)
    (small : length s.heap.classes.size_to_bin_small ≡ 17) (untouched : s.initialized ≡ 0) where
  abbrev before : Global
  before = record {
    initialized = s.initialized;
    segment_registry = s.heap.segs.registry;
    classes = s.heap.classes;
    arena_count = s.heap.arena_count;
    arena_next = s.heap.arena_next;
    large_list = s.large.large_list;
    bootstrap_used = s.bootstrap_used;
  }

  ready : IsReady (set_up before)
  ready = set_up-IsReady before sized bins small

  abbrev after : State
  after = record s {
    initialized = (set_up before).initialized;
    heap = record s.heap {
      segs = record s.heap.segs { registry = (set_up before).segment_registry };
      arena = λ a.
          if leb 1 a && leb a (set_up before).arena_count
          then arena_init (a - 1)
          else s.heap.arena a;
      arena_count = (set_up before).arena_count;
      arena_next = (set_up before).arena_next;
      classes = (set_up before).classes;
    };
    large = record s.large { large_list = (set_up before).large_list };
    bootstrap_used = (set_up before).bootstrap_used;
  }

  fresh : (a : ℕ) → 1 ≤ a → a ≤ 4 → after.heap.arena a ≡ arena_init (a - 1)
  fresh a lo hi = ground (arith, ready.arenas)

  after-IsHeap : IsHeap after.heap (λ p. [])
  after-IsHeap = record {
    registry = ready.registry;
    segment = λ b ne c. absurd (ne (ready.no_segment b c));
    on_boundary = λ b ne c. absurd (ne (ready.no_segment b c));
    below = λ b ne c. absurd (ne (ready.no_segment b c));
    backed = λ b ne c. absurd (ne (ready.no_segment b c));
    page = λ p o. absurd (o.some_segment (ready.no_segment _ o.registered));
    idle = λ p shut. refl;
  }

  after-IsArena : (a : ℕ) → 1 ≤ a → a ≤ 4 → IsArena after.heap a (λ b. []) []
  unfolding arena_init
  after-IsArena a lo hi = record {
    sized = ap (λ (t : Arena). length t.bins) (fresh a lo hi);
    bins = λ b lt.
        ap (λ (t : Arena). get_or t.bins b null) (fresh a lo hi) ∙ get_or-replicate 75 b null;
    open_pages = λ b p lt m. absurd (m refl);
    fits = λ b p lt m. absurd (m refl);
    segments = ap (λ (t : Arena). t.segments) (fresh a lo hi);
    registered = λ q m. absurd (m refl);
  }

  -- Where the arrays have their lengths, malloc_ensure_init of an allocator that nobody has initialised
  -- leaves it initialised, with the size class tables, a valid heap without any segment or slot held, four
  -- valid arenas without any page, numbered from 0, of which arena_next is the first, no large allocation and
  -- an empty bootstrap buffer.
  pub malloc_ensure_init-IsStarted : IsStarted (malloc_ensure_init s)
  unfolding malloc_ensure_init set_up arena_init
  malloc_ensure_init-IsStarted = rw untouched started
    where
      started : IsStarted after
      started = record {
        initialized = ready.initialized;
        heap = after-IsHeap;
        arenas = after-IsArena;
        listed = λ a lo hi. record {
          linked = λ b lt. (after-IsArena a lo hi).bins b lt;
          distinct = λ b lt. refl;
          binned = λ b p lt m. absurd (m refl);
        };
        ids = λ a lo hi. ap (λ (t : Arena). t.id) (fresh a lo hi);
        arena_count = ready.arenas;
        arena_next = refl;
        classes = ready.classes;
        large_list = ready.no_large;
        bootstrap_used = refl;
      }
