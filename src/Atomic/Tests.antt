-- ===== src/Atomic/Tests.antt =====
-- Tagged words and the stack operations at concrete addresses.
use malloc.Common.{if◌then◌else◌, ◌==◌, ◌+◌}
use malloc.Memory.{write}
use malloc.Atomic.Threads.{
  private, stacked, foreign, idle, pushing, loaded, linked, System, go, give, call_push, load, link,
  swap, Run, start, then_step,
}
use malloc.Atomic.Shared.{IsInitial, IsShared, Run-IsShared}
use malloc.Atomic.Alone.{IsFinished, alone_finishes}
use malloc.Common.{◌≡◌, refl, arith}
use malloc.Memory.{Mem}
use malloc.Atomic.{
  tagged_ptr_get, tagged_ptr_tag, tagged_make, treiber_push, treiber_pop, treiber_collect,
}

tag_wraps : tagged_ptr_tag (tagged_make 0x1000 0x1_0005) ≡ 5
unfolding tagged_ptr_tag tagged_make
tag_wraps = refl

abbrev zeros : Mem
zeros a = 0

pushed_twice :
    let (h, m) = treiber_push 0 0x1000 0 zeros in
    let (h', m') = treiber_push h 0x2000 0 m in (treiber_pop h' 0 m').0 ≡ 0x2000
unfolding treiber_push treiber_pop tagged_ptr_get tagged_ptr_tag tagged_make
pushed_twice = refl

collected : (treiber_collect (tagged_make 0x2000 9)).0 ≡ 0x2000
unfolding treiber_collect tagged_ptr_get tagged_make
collected = refl

-- Thread 0 owns the node at 16 and pushes it.
abbrev apart : System
apart = record {
  word = 0;
  mem = λ a. 7;
  at = λ i. idle;
  owner = λ a. if a == 16 then private 0 else foreign;
}

apart-IsInitial : IsInitial apart
unfolding tagged_ptr_get
apart-IsInitial = record {
  usable = λ a h. ground (arith, h);
  empty = refl;
  none_stacked = λ a. ground arith;
  outside = λ i. refl;
}

abbrev pushed : System
pushed = record {
  word = tagged_make 16 (tagged_ptr_tag 0 + 1);
  mem = write (λ a. 7) 16 (tagged_ptr_get 0);
  at = go (go (go (go (λ i. idle) 0 (pushing 16)) 0 (loaded 16 0)) 0 (linked 16 0)) 0 idle;
  owner = give apart.owner 16 stacked;
}

push_run : Run apart pushed
push_run =
    then_step
      (then_step (then_step (then_step start (call_push 0 16 refl refl)) (load 0 16 refl))
        (link 0 16 0 refl))
      (swap 0 16 0 refl refl)

Run-IsShared_example : IsShared pushed
Run-IsShared_example = Run-IsShared apart-IsInitial push_run

abbrev halfway : System
halfway = record apart { at = go apart.at 0 (pushing 16) }

alone_finishes_example : (u : System) × IsFinished halfway 0 (pushing 16) u
alone_finishes_example = alone_finishes halfway 0 (λ node e. omega (arith, e))
