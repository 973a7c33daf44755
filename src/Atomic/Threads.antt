-- ===== src/Atomic/Threads.antt =====
-- treiber_push and treiber_collect of include/malloc_atomic.h as any number of threads run them on one
-- word: each load, store and compare-and-swap is a step of a thread, and a compare-and-swap may fail at any
-- time. treiber_pop is left out; no function calls it.
use malloc.Common.{ℕ, ◌+◌, ◌≡◌, ◌≢◌, if◌then◌else◌, ◌==◌, Bool, true, false}
use malloc.Memory.{Mem, null, write}
use malloc.Atomic.{tagged_ptr_get, tagged_ptr_tag, tagged_make}

-- Whose a node is: with a thread, on the stack, or no node at all.
pub data Owner : Type 0 where
  private : (thread : ℕ) → Owner
  stacked : Owner
  foreign : Owner

-- Where a thread is. `old` is the word that it has loaded.
pub data Place : Type 0 where
  idle : Place
  pushing : (node : ℕ) → Place
  loaded : (node old : ℕ) → Place
  linked : (node old : ℕ) → Place
  collecting : Place
  seen : (old : ℕ) → Place
  collected : (list : ℕ) → Place

-- The word and the memory, the places, and the owner of each address, which is no part of the program.
pub record System : Type 0 where
  pub word : ℕ
  pub mem : Mem
  pub at : ℕ → Place
  pub owner : ℕ → Owner

abbrev pub go : (ℕ → Place) → ℕ → Place → ℕ → Place
go at i to j = if i == j then to else at j

abbrev pub give : (ℕ → Owner) → ℕ → Owner → ℕ → Owner
give owner a to b = if a == b then to else owner b

abbrev pub is_stacked : Owner → Bool
is_stacked (private i) = false
is_stacked stacked = true
is_stacked foreign = false

abbrev pub give_all : (ℕ → Owner) → ℕ → ℕ → Owner
give_all owner i a = if is_stacked (owner a) then private i else owner a

-- One step of thread `i`.
pub data Step : ℕ → System → System → Type 0 where
  -- outside of the two functions: a store to a node of its own, or a call
  write_own :
      {s : System} (i a v : ℕ)
      → s.at i ≡ idle
      → s.owner a ≡ private i
      → Step i s (record s { mem = write s.mem a v })
  call_push :
      {s : System} (i node : ℕ)
      → s.at i ≡ idle
      → s.owner node ≡ private i
      → Step i s (record s { at = go s.at i (pushing node) })
  call_collect :
      {s : System} (i : ℕ) → s.at i ≡ idle → Step i s (record s { at = go s.at i collecting })
  resume :
      {s : System} (i list : ℕ)
      → s.at i ≡ collected list
      → Step i s (record s { at = go s.at i idle })
  -- treiber_push
  load :
      {s : System} (i node : ℕ)
      → s.at i ≡ pushing node
      → Step i s (record s { at = go s.at i (loaded node s.word) })
  link :
      {s : System} (i node old : ℕ)
      → s.at i ≡ loaded node old
      → Step i s (record s {
        mem = write s.mem node (tagged_ptr_get old);
        at = go s.at i (linked node old);
      })
  swap :
      {s : System} (i node old : ℕ)
      → s.at i ≡ linked node old
      → s.word ≡ old
      → Step i s (record s {
        word = tagged_make node (tagged_ptr_tag old + 1);
        at = go s.at i idle;
        owner = give s.owner node stacked;
      })
  retry :
      {s : System} (i node old : ℕ)
      → s.at i ≡ linked node old
      → Step i s (record s { at = go s.at i (pushing node) })
  -- treiber_collect
  see_none :
      {s : System} (i : ℕ)
      → s.at i ≡ collecting
      → tagged_ptr_get s.word ≡ null
      → Step i s (record s { at = go s.at i (collected null) })
  see :
      {s : System} (i : ℕ)
      → s.at i ≡ collecting
      → tagged_ptr_get s.word ≢ null
      → Step i s (record s { at = go s.at i (seen s.word) })
  take :
      {s : System} (i old : ℕ)
      → s.at i ≡ seen old
      → s.word ≡ old
      → Step i s (record s {
        word = tagged_make null (tagged_ptr_tag old + 1);
        at = go s.at i (collected (tagged_ptr_get old));
        owner = give_all s.owner i;
      })
  look_again :
      {s : System} (i old : ℕ)
      → s.at i ≡ seen old
      → Step i s (record s { at = go s.at i collecting })

-- What can be reached from a state.
pub data Run (s : System) : System → Type 0 where
  start : Run s s
  then_step : {i : ℕ} {t u : System} → Run s t → Step i t u → Run s u

-- What thread `i` alone can reach.
pub data Solo (i : ℕ) : System → System → Type 0 where
  rest : {s : System} → Solo i s s
  first_step : {s t u : System} → Step i s t → Solo i t u → Solo i s u
