-- ===== src/Atomic/Shared.antt =====
-- The stack of include/malloc_atomic.h stays a well-formed list, however the threads' steps interleave.
use malloc.Common.{
  ℕ, ◌+◌, ◌^◌, ◌<◌, ◌≤◌, ◌≡◌, ◌≢◌, refl, sym, ap, ◌∙◌, subst, List, [], ◌∷◌, Bool, true, false,
  arith, if◌then◌else◌, ==_iff, ne→==, ℕ_discrete,
}
use malloc.Memory.{Mem, null, write}
use malloc.Memory.Chain.{Chain, count, Chain-write}
use malloc.Page.Kept.{Chain-agree}
use malloc.Atomic.{tagged_ptr_get, tagged_ptr_tag, tagged_make}
use malloc.Atomic.Tagged.{tagged_make_parts}
use malloc.Atomic.Threads.{
  Owner, private, stacked, foreign, Place, idle, pushing, loaded, linked, collecting, seen,
  collected, System, go, give, is_stacked, give_all, Step, write_own, call_push, call_collect,
  resume, load, link, swap, retry, see_none, see, take, look_again, Run, start, then_step,
}

abbrev pub is_node : Owner → Bool
is_node (private i) = true
is_node stacked = true
is_node foreign = false

-- From `head` the links lead through nodes of thread `i`, each once.
pub record IsTaken (mem : Mem) (owner : ℕ → Owner) (i head : ℕ) : Type 0 where
  pub list : List ℕ
  pub chain : Chain mem head list
  pub own : (a : ℕ) → count a list ≢ 0 → owner a ≡ private i
  pub once : (a : ℕ) → count a list ≤ 1

-- What a thread knows at a place.
abbrev pub Knows : Mem → (ℕ → Owner) → ℕ → Place → Type 0
Knows mem owner i idle = Unit {0}
Knows mem owner i (pushing node) = owner node ≡ private i
Knows mem owner i (loaded node old) = owner node ≡ private i
Knows mem owner i (linked node old) = (owner node ≡ private i) × (mem node ≡ tagged_ptr_get old)
Knows mem owner i collecting = Unit {0}
Knows mem owner i (seen old) = Unit {0}
Knows mem owner i (collected head) = IsTaken mem owner i head

-- The word leads through exactly the nodes on the stack, each once, and each thread holds what it knows.
pub record IsShared (s : System) : Type 0 where
  pub usable : (a : ℕ) → is_node (s.owner a) ≡ true → (a ≢ null) × (a < 2 ^ 48)
  pub list : List ℕ
  pub chain : Chain s.mem (tagged_ptr_get s.word) list
  pub exactly : (a : ℕ) → count a list ≡ (if is_stacked (s.owner a) then 1 else 0)
  pub knows : (i : ℕ) → Knows s.mem s.owner i (s.at i)

-- A thread's knowledge is about its own nodes.
Knows-frame :
    (m n : Mem) (o w : ℕ → Owner) (j : ℕ) (p : Place)
    → ((a : ℕ) → o a ≡ private j → (w a ≡ private j) × (n a ≡ m a))
    → Knows m o j p
    → Knows n w j p
Knows-frame m n o w j idle same k = tt
Knows-frame m n o w j (pushing node) same k = (same node k).0
Knows-frame m n o w j (loaded node old) same k = (same node k).0
Knows-frame m n o w j (linked node old) same k = ((same node k.0).0, (same node k.0).1 ∙ k.1)
Knows-frame m n o w j collecting same k = tt
Knows-frame m n o w j (seen old) same k = tt
Knows-frame m n o w j (collected head) same k = record {
  list = k.list;
  chain = Chain-agree m n head k.list (λ a h. sym (same a (k.own a h)).1) k.chain;
  own = λ a h. (same a (k.own a h)).0;
  once = k.once;
}

-- The others keep what they know if their nodes are left alone.
Knows-go :
    (m n : Mem) (o w : ℕ → Owner) (at : ℕ → Place) (i : ℕ) (to : Place)
    → ((j : ℕ) → Knows m o j (at j))
    → Knows n w i to
    → ((j a : ℕ) → i ≢ j → o a ≡ private j → (w a ≡ private j) × (n a ≡ m a))
    → (j : ℕ) → Knows n w j (go at i to j)
Knows-go m n o w at i to known new same j = elim (ℕ_discrete i j) [
  | yes e ↦ subst (λ t. Knows n w t (go at i to t)) e (rw ((==_iff i i).1 refl) new)
  | no ne ↦ rw (ne→== i j ne) (Knows-frame m n o w j (at j) (λ a. same j a ne) (known j))
]

-- A step that only moves the thread.
move-IsShared :
    (s : System) (i : ℕ) (to : Place)
    → IsShared s
    → Knows s.mem s.owner i to
    → IsShared (record s { at = go s.at i to })
move-IsShared s i to v new = record {
  usable = v.usable;
  list = v.list;
  chain = v.chain;
  exactly = v.exactly;
  knows = Knows-go s.mem s.mem s.owner s.owner s.at i to v.knows new (λ j a ne own. (own, refl));
}

-- What thread `i` knows, seen from its place.
here : (s : System) (i : ℕ) (p : Place) → IsShared s → s.at i ≡ p → Knows s.mem s.owner i p
here s i p v e = subst (Knows s.mem s.owner i) e (v.knows i)

private-injective : (i j : ℕ) → private i ≡ private j → i ≡ j
private-injective i j e = ap thread_of e
  where
    thread_of : Owner → ℕ
    thread_of (private k) = k
    thread_of stacked = 0
    thread_of foreign = 0

other_node :
    (owner : ℕ → Owner) (i j a b : ℕ) → i ≢ j → owner a ≡ private i → owner b ≡ private j → a ≢ b
other_node owner i j a b ne ha hb e = ne (private-injective i j (sym ha ∙ ap owner e ∙ hb))

-- A node of a thread's own is not on the stack.
own-unstacked : (s : System) (i a : ℕ) (v : IsShared s) → s.owner a ≡ private i → count a v.list ≡ 0
own-unstacked s i a v own = v.exactly a ∙ rw own refl

Step-IsShared : {i : ℕ} {s t : System} → Step i s t → IsShared s → IsShared t
Step-IsShared (write_own {s} i a x at_i own) v = record {
  usable = v.usable;
  list = v.list;
  chain = Chain-write s.mem a x _ v.list (own-unstacked s i a v own) v.chain;
  exactly = v.exactly;
  knows = λ j. elim (ℕ_discrete i j) [
    | yes e ↦
        subst (λ t. Knows (write s.mem a x) s.owner t (s.at t)) e
          (subst (Knows (write s.mem a x) s.owner i) (sym at_i) tt)
    | no ne ↦
        Knows-frame s.mem (write s.mem a x) s.owner s.owner j (s.at j)
          (λ b mine. (mine, rw (ne→== a b (other_node s.owner i j a b ne own mine)) refl))
          (v.knows j)
  ];
}
Step-IsShared (call_push {s} i node at_i own) v = move-IsShared s i (pushing node) v own
Step-IsShared (call_collect {s} i at_i) v = move-IsShared s i collecting v tt
Step-IsShared (resume {s} i head at_i) v = move-IsShared s i idle v tt
Step-IsShared (load {s} i node at_i) v =
    move-IsShared s i (loaded node s.word) v (here s i _ v at_i)
Step-IsShared (link {s} i node old at_i) v =
    let own : s.owner node ≡ private i = here s i _ v at_i in
    record {
      usable = v.usable;
      list = v.list;
      chain =
          Chain-write s.mem node (tagged_ptr_get old) _ v.list (own-unstacked s i node v own)
            v.chain;
      exactly = v.exactly;
      knows =
          Knows-go s.mem (write s.mem node (tagged_ptr_get old)) s.owner s.owner s.at i
            (linked node old) v.knows (own, rw ((==_iff node node).1 refl) refl)
            (λ j b ne mine.
              (mine, rw (ne→== node b (other_node s.owner i j node b ne own mine)) refl));
    }
Step-IsShared (swap {s} i node old at_i same) v =
    let (own, next) = here s i (linked node old) v at_i in
    let ok = v.usable node (rw own refl) in
    let head : tagged_ptr_get (tagged_make node (tagged_ptr_tag old + 1)) ≡ node =
      (tagged_make_parts node (tagged_ptr_tag old + 1) ok.1).0 in
    record {
      usable = λ a. elim (ℕ_discrete node a) [
        | yes e ↦ λ _. subst (λ t. (t ≢ null) × (t < 2 ^ 48)) e ok
        | no ne ↦ rw (ne→== node a ne) (v.usable a)
      ];
      list = node ∷ v.list;
      chain = (
        head,
        ok.0,
        subst (λ q. Chain s.mem q v.list) (ap tagged_ptr_get same ∙ sym next) v.chain,
      );
      exactly = λ a. elim (ℕ_discrete node a) [
        | yes e ↦
            subst
              (λ t.
                count t (node ∷ v.list)
                ≡ (if is_stacked (give s.owner node stacked t) then 1 else 0))
              e (rw ((==_iff node node).1 refl, own-unstacked s i node v own) refl)
        | no ne ↦ rw (ne→== node a ne, ne→== a node (λ e. ne (sym e))) (omega (arith, v.exactly a))
      ];
      knows =
          Knows-go s.mem s.mem s.owner (give s.owner node stacked) s.at i idle v.knows tt
            (λ j b ne mine.
              (rw (ne→== node b (other_node s.owner i j node b ne own mine)) mine, refl));
    }
Step-IsShared (retry {s} i node old at_i) v =
    move-IsShared s i (pushing node) v (here s i (linked node old) v at_i).0
Step-IsShared (see_none {s} i at_i none_there) v =
    move-IsShared s i (collected null) v
      (record { list = []; chain = refl; own = λ a h. absurd (h refl); once = λ a. omega arith })
Step-IsShared (see {s} i at_i some_there) v = move-IsShared s i (seen s.word) v tt
Step-IsShared (take {s} i old at_i same) v = record {
  usable = λ a h. v.usable a (was_node a h);
  list = [];
  chain = (tagged_make_parts null (tagged_ptr_tag old + 1) (omega arith)).0;
  exactly = λ a. none_left (s.owner a);
  knows =
      Knows-go s.mem s.mem s.owner (give_all s.owner i) s.at i (collected (tagged_ptr_get old))
        v.knows
        (record {
          list = v.list;
          chain = subst (λ w. Chain s.mem (tagged_ptr_get w) v.list) same v.chain;
          own = λ a h. mine (s.owner a) (λ e. h (v.exactly a ∙ rw e refl));
          once = λ a. at_most (s.owner a) (v.exactly a);
        })
        (λ j b ne own. (rw own refl, refl));
}
  where
    was_node : (a : ℕ) → is_node (give_all s.owner i a) ≡ true → is_node (s.owner a) ≡ true
    was_node a = given (s.owner a)
      where
        given :
            (o : Owner) → is_node (if is_stacked o then private i else o) ≡ true → is_node o ≡ true
        given (private k) h = h
        given stacked h = refl
        given foreign h = h

    none_left :
        (o : Owner)
        → ◌≡◌ {A = ℕ} 0 (if is_stacked (if is_stacked o then private i else o) then 1 else 0)
    none_left (private k) = refl
    none_left stacked = refl
    none_left foreign = refl

    mine :
        (o : Owner) → ¬ (is_stacked o ≡ false) → (if is_stacked o then private i else o) ≡ private i
    mine (private k) h = absurd (h refl)
    mine stacked h = refl
    mine foreign h = absurd (h refl)

    at_most : (o : Owner) {n : ℕ} → n ≡ (if is_stacked o then 1 else 0) → n ≤ 1
    at_most (private k) e = omega (arith, e)
    at_most stacked e = omega (arith, e)
    at_most foreign e = omega (arith, e)
Step-IsShared (look_again {s} i old at_i) v = move-IsShared s i collecting v tt

-- Any number of threads, each outside of the functions, with nodes of their own and an empty stack.
pub record IsInitial (s : System) : Type 0 where
  pub usable : (a : ℕ) → is_node (s.owner a) ≡ true → (a ≢ null) × (a < 2 ^ 48)
  pub empty : tagged_ptr_get s.word ≡ null
  pub none_stacked : (a : ℕ) → is_stacked (s.owner a) ≡ false
  pub outside : (i : ℕ) → s.at i ≡ idle

-- However the loads, stores and compare-and-swaps of any number of threads interleave, and whatever a thread
-- writes to its own nodes outside of the functions: the word leads through exactly the nodes that have been
-- pushed and not collected, each once, and a list that a thread has collected leads through nodes of its own,
-- each once. It starts with an empty stack and every node below 2^48.
pub Run-IsShared : {s t : System} → IsInitial s → Run s t → IsShared t
Run-IsShared {s} w start = record {
  usable = w.usable;
  list = [];
  chain = w.empty;
  exactly = λ a. rw (w.none_stacked a) refl;
  knows = λ i. subst (Knows s.mem s.owner i) (sym (w.outside i)) tt;
}
Run-IsShared w (then_step run step) = Step-IsShared step (Run-IsShared w run)
