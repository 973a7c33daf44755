-- ===== src/Atomic/Alone.antt =====
-- A thread that runs alone finishes treiber_push and treiber_collect, wherever the others stand.
use malloc.Common.{
  ℕ, ◌+◌, ◌^◌, ◌<◌, ◌≡◌, ◌≢◌, refl, sym, ap, ◌∙◌, Bool, true, false, arith, ==_iff, ne→==,
  ℕ_discrete, u16,
}
use malloc.Memory.{Mem, null, write}
use malloc.Atomic.{tagged_ptr_get, tagged_ptr_tag}
use malloc.Atomic.Tagged.{tagged_make_parts}
use malloc.Atomic.Threads.{
  Place, idle, pushing, loaded, linked, collecting, seen, collected, System, go, Step, load, link,
  swap, retry, see_none, see, take, look_again, Solo, rest, first_step,
}

-- outside of the two functions, with what they have returned
abbrev pub is_outside : Place → Bool
is_outside idle = true
is_outside (pushing node) = false
is_outside (loaded node old) = false
is_outside (linked node old) = false
is_outside collecting = false
is_outside (seen old) = false
is_outside (collected list) = true

-- The node that the place is to push, if it is one of treiber_push.
abbrev pub IsFor : Place → ℕ → Type 0
IsFor idle n = ⊥
IsFor (pushing node) n = node ≡ n
IsFor (loaded node old) n = node ≡ n
IsFor (linked node old) n = node ≡ n
IsFor collecting n = ⊥
IsFor (seen old) n = ⊥
IsFor (collected list) n = ⊥

-- From s to t the node has been put before what the word led to, and the tag counted up.
pub record IsPushed (s : System) (i node : ℕ) (t : System) : Type 0 where
  pub head : tagged_ptr_get t.word ≡ node
  pub tag : tagged_ptr_tag t.word ≡ u16 (tagged_ptr_tag s.word + 1)
  pub link : t.mem node ≡ tagged_ptr_get s.word
  pub kept : (a : ℕ) → a ≢ node → t.mem a ≡ s.mem a
  pub place : t.at i ≡ idle

-- From s to t the word has been emptied, and the thread has what it led to.
pub record IsCollected (s : System) (i : ℕ) (t : System) : Type 0 where
  pub empty : tagged_ptr_get t.word ≡ null
  pub kept : (a : ℕ) → t.mem a ≡ s.mem a
  pub place : t.at i ≡ collected (tagged_ptr_get s.word)

-- What the call of a thread that stood at the place has done from s to t.
abbrev pub IsDone : Place → System → ℕ → System → Type 0
IsDone idle s i t = t ≡ s
IsDone (pushing node) s i t = IsPushed s i node t
IsDone (loaded node old) s i t = IsPushed s i node t
IsDone (linked node old) s i t = IsPushed s i node t
IsDone collecting s i t = IsCollected s i t
IsDone (seen old) s i t = IsCollected s i t
IsDone (collected list) s i t = t ≡ s

-- By steps of thread `i` alone, it is outside.
pub record IsFinished (s : System) (i : ℕ) (p : Place) (t : System) : Type 0 where
  pub run : Solo i s t
  pub others : (j : ℕ) → i ≢ j → t.at j ≡ s.at j
  pub outside : is_outside (t.at i) ≡ true
  pub done : IsDone p s i t

go_self : (at : ℕ → Place) (i : ℕ) (to : Place) → go at i to i ≡ to
go_self at i to = rw ((==_iff i i).1 refl) refl

go-other : (at : ℕ → Place) (i : ℕ) (to : Place) (j : ℕ) → i ≢ j → go at i to j ≡ at j
go-other at i to j ne = rw (ne→== i j ne) refl

first-IsFinished :
    (s t u : System) (i : ℕ) (p q : Place)
    → Step i s t
    → ((j : ℕ) → i ≢ j → t.at j ≡ s.at j)
    → (IsDone q t i u → IsDone p s i u)
    → IsFinished t i q u
    → IsFinished s i p u
first-IsFinished s t u i p q step still done f = record {
  run = first_step step f.run;
  others = λ j ne. f.others j ne ∙ still j ne;
  outside = f.outside;
  done = done f.done;
}

-- A step before that leaves the word alone, and the memory but for the node.
earlier-IsPushed :
    {s t u : System} {i node : ℕ}
    → t.word ≡ s.word
    → ((a : ℕ) → a ≢ node → t.mem a ≡ s.mem a)
    → IsPushed t i node u
    → IsPushed s i node u
earlier-IsPushed word mem d = record {
  head = d.head;
  tag = d.tag ∙ ap (λ w. u16 (tagged_ptr_tag w + 1)) word;
  link = d.link ∙ ap tagged_ptr_get word;
  kept = λ a ne. d.kept a ne ∙ mem a ne;
  place = d.place;
}

earlier-IsCollected :
    {s u : System} {i : ℕ} {at : ℕ → Place}
    → IsCollected (record s { at = at }) i u
    → IsCollected s i u
earlier-IsCollected d = record { empty = d.empty; kept = d.kept; place = d.place }

write-other : (m : Mem) (node v a : ℕ) → a ≢ node → write m node v a ≡ m a
write-other m node v a ne = rw (ne→== node a (λ e. ne (sym e))) refl

module _ (i : ℕ) where
  linked_finishes :
      (s : System) (node : ℕ)
      → node < 2 ^ 48
      → s.at i ≡ linked node s.word
      → s.mem node ≡ tagged_ptr_get s.word
      → (u : System) × IsFinished s i (linked node s.word) u
  linked_finishes s node low e points = (
    _,
    record {
      run = first_step (swap i node s.word e refl) rest;
      others = go-other s.at i idle;
      outside = rw (go_self s.at i idle) refl;
      done = record {
        head = (tagged_make_parts node (tagged_ptr_tag s.word + 1) low).0;
        tag = (tagged_make_parts node (tagged_ptr_tag s.word + 1) low).1;
        link = points;
        kept = λ a ne. refl;
        place = go_self s.at i idle;
      };
    },
  )

  pushing_finishes :
      (s : System) (node : ℕ)
      → node < 2 ^ 48
      → s.at i ≡ pushing node
      → (u : System) × IsFinished s i (pushing node) u
  pushing_finishes s node low e =
      let a : System = record s { at = go s.at i (loaded node s.word) } in
      let b : System = record a {
        mem = write s.mem node (tagged_ptr_get s.word);
        at = go a.at i (linked node s.word);
      } in
      let (u, f) =
        linked_finishes b node low (go_self a.at i (linked node s.word))
          (rw ((==_iff node node).1 refl) refl) in
      (
        u,
        first-IsFinished s a u i (pushing node) (loaded node s.word) (load i node e)
            (go-other s.at i _) (earlier-IsPushed refl (λ x ne. refl))
            (first-IsFinished a b u i (loaded node s.word) (linked node s.word)
              (link i node s.word (go_self s.at i (loaded node s.word))) (go-other a.at i _)
              (earlier-IsPushed refl (write-other s.mem node (tagged_ptr_get s.word))) f),
      )

  collecting_finishes :
      (s : System) → s.at i ≡ collecting → (u : System) × IsFinished s i collecting u
  collecting_finishes s e = elim (ℕ_discrete (tagged_ptr_get s.word) null) [
    | yes empty ↦ (
      _,
      record {
        run = first_step (see_none i e empty) rest;
        others = go-other s.at i (collected null);
        outside = rw (go_self s.at i (collected null)) refl;
        done = record {
          empty = empty;
          kept = λ a. refl;
          place = go_self s.at i (collected null) ∙ ap collected (sym empty);
        };
      },
    )
    | no some_there ↦
        let a : System = record s { at = go s.at i (seen s.word) } in
        (
          _,
          first-IsFinished s a _ i collecting (seen s.word) (see i e some_there) (go-other s.at i _)
              earlier-IsCollected
              (record {
                run = first_step (take i s.word (go_self s.at i (seen s.word)) refl) rest;
                others = go-other a.at i _;
                outside = rw (go_self a.at i (collected (tagged_ptr_get s.word))) refl;
                done = record {
                  empty = (tagged_make_parts null (tagged_ptr_tag s.word + 1) (omega arith)).0;
                  kept = λ x. refl;
                  place = go_self a.at i (collected (tagged_ptr_get s.word));
                };
              }),
        )
  ]

  finishes :
      (s : System) (p : Place)
      → ((node : ℕ) → IsFor p node → node < 2 ^ 48)
      → s.at i ≡ p
      → (u : System) × IsFinished s i p u
  finishes s idle low e =
      (s, record { run = rest; others = λ j ne. refl; outside = rw e refl; done = refl })
  finishes s (collected list) low e =
      (s, record { run = rest; others = λ j ne. refl; outside = rw e refl; done = refl })
  finishes s (pushing node) low e = pushing_finishes s node (low node refl) e
  finishes s (linked node old) low e =
      let a : System = record s { at = go s.at i (pushing node) } in
      let (u, f) = pushing_finishes a node (low node refl) (go_self s.at i (pushing node)) in
      (
        u,
        first-IsFinished s a u i (linked node old) (pushing node) (retry i node old e)
            (go-other s.at i _) (earlier-IsPushed refl (λ x ne. refl)) f,
      )
  finishes s (loaded node old) low e =
      let a : System = record s {
        mem = write s.mem node (tagged_ptr_get old);
        at = go s.at i (linked node old);
      } in
      let b : System = record a { at = go a.at i (pushing node) } in
      let (u, f) = pushing_finishes b node (low node refl) (go_self a.at i (pushing node)) in
      (
        u,
        first-IsFinished s a u i (loaded node old) (linked node old) (link i node old e)
            (go-other s.at i _)
            (earlier-IsPushed refl (write-other s.mem node (tagged_ptr_get old)))
            (first-IsFinished a b u i (linked node old) (pushing node)
              (retry i node old (go_self s.at i (linked node old))) (go-other a.at i _)
              (earlier-IsPushed refl (λ x ne. refl)) f),
      )
  finishes s collecting low e = collecting_finishes s e
  finishes s (seen old) low e =
      let a : System = record s { at = go s.at i collecting } in
      let (u, f) = collecting_finishes a (go_self s.at i collecting) in
      (
        u,
        first-IsFinished s a u i (seen old) collecting (look_again i old e) (go-other s.at i _)
            earlier-IsCollected f,
      )

-- From any state, wherever the threads stand, and if a node that the thread is pushing lies below 2^48: there
-- are steps of the thread alone, the others standing still, by which it comes to the end of its push or collect.
-- A push has then put the node at the head of the word, linked to what the word led to, changed no other
-- memory, and counted the tag up modulo 2^16; a collect has emptied the word, changed no memory, and has what
-- the word led to. A thread outside of both has changed nothing.
pub alone_finishes :
    (s : System) (i : ℕ)
    → ((node : ℕ) → IsFor (s.at i) node → node < 2 ^ 48)
    → (u : System) × IsFinished s i (s.at i) u
alone_finishes s i low = finishes i s (s.at i) low refl
