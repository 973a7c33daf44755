-- ===== src/Arena/Lists.antt =====
-- The bins of an arena of src/arena.c as doubly linked lists of pages, and a page taken out of its bin.
use malloc.Common.{
  ℕ, ◌<◌, ◌≤◌, ◌≡◌, ◌≢◌, refl, sym, ap, ◌∙◌, subst, List, [], ◌∷◌, ℕ_discrete, arith, Bool-cases,
  inl, inr, ◌==◌, ne→==, ==_iff, if◌then◌else◌,
}
use malloc.Memory.{null}
use malloc.Memory.Chain.{Chain, count, erase, count-erase}
use malloc.Large.{Headers}
use malloc.Large.Linked.{Linked, Linked-agree, Distinct, null-not, erase-Distinct}
use malloc.Large.Unlink.{Skips-Linked, in_memory, next_inside, prev_inside}
use malloc.Page.{Page}
use malloc.Heap.{Heap, page_of}
use malloc.Heap.Valid.{hold}
use malloc.Arena.{bin_head}
use malloc.Arena.Scan.{next_page}

-- the links of the pages
abbrev pub links_of : Heap → Headers
links_of h p = record {
  base = null;
  size = 0;
  user_size = 0;
  next = (page_of h p).next;
  prev = (page_of h p).prev;
}

-- Each bin is a doubly linked list of distinct pages that know their bin.
pub record IsListed (h : Heap) (a : ℕ) (pages : ℕ → List ℕ) : Type 0 where
  pub linked : (b : ℕ) → b < 75 → Linked (links_of h) null (bin_head h a b) (pages b)
  pub distinct : (b : ℕ) → b < 75 → Distinct (pages b)
  pub binned : (b p : ℕ) → b < 75 → count p (pages b) ≢ 0 → (page_of h p).bin_idx ≡ b

pub Linked-Chain :
    (h : Heap) (before head : ℕ) (xs : List ℕ)
    → Linked (links_of h) before head xs
    → Chain (next_page h) head xs
Linked-Chain h before head [] l = l
Linked-Chain h before head (x ∷ xs) l = (l.0, l.1, Linked-Chain h x (next_page h x) xs l.3)

Distinct-once : (p : ℕ) (xs : List ℕ) → Distinct xs → count p xs ≤ 1
Distinct-once p [] d = omega arith
Distinct-once p (x ∷ xs) d = elim (Bool-cases (p == x)) [
  | inl same ↦ rw same (omega (arith, subst (λ t. count t xs ≡ 0) (sym ((==_iff p x).0 same)) d.0))
  | inr other ↦ rw other (omega (arith, Distinct-once p xs d.1))
]

pub next_listed :
    (h : Headers) (p head : ℕ) (xs : List ℕ)
    → Linked h null head xs
    → count p xs ≢ 0
    → (h p).next ≢ null
    → count (h p).next xs ≢ 0
next_listed h p head xs l m some_next out =
    next_inside h p (h p).next null head xs l m out some_next refl

first_prev :
    (h : Headers) (before head : ℕ) (xs : List ℕ)
    → Linked h before head xs
    → xs ≢ []
    → (h head).prev ≡ before
first_prev h before head [] l ne = absurd (ne refl)
first_prev h before head (x ∷ xs) l ne = ap (λ t. (h t).prev) l.0 ∙ l.2

pub prev_listed :
    (h : Headers) (p head : ℕ) (xs : List ℕ)
    → Linked h null head xs
    → count p xs ≢ 0
    → (h p).prev ≢ null
    → count (h p).prev xs ≢ 0
prev_listed h p head xs l m some_prev out = elim (ℕ_discrete p head) [
  | yes e ↦ some_prev (
      ap (λ t. (h t).prev) e
      ∙ first_prev h null head xs l (λ none_there. m (ap (count p) none_there)))
  | no ne ↦ prev_inside h p (h p).prev null head xs l ne m out refl
]

-- What is left of a list of distinct addresses is the others.
pub erased-others :
    (p q : ℕ) (xs : List ℕ)
    → Distinct xs
    → count p xs ≢ 0
    → count q (erase p xs) ≢ 0
    → (q ≢ p) × (count q xs ≢ 0)
erased-others p q xs d m k = (
  λ e. k (
      ap (λ t. count t (erase p xs)) e
      ∙ ground (arith, count-erase p p xs m, Distinct-once p xs d)),
  ground (arith, count-erase p q xs m),
)

-- The lists of the arena of h without the page `p`, in a heap g whose links around `p` lead past it.
module _ (h g : Heap) (a : ℕ) (pages : ℕ → List ℕ) (listed : IsListed h a pages) (bin p : ℕ)
    (in_range : bin < 75) (member : count p (pages bin) ≢ 0)
    (after : (q : ℕ)
      → q ≢ null
      → q ≢ p
      → page_of g q ≡ record (page_of h q) {
        next = if q == (page_of h p).prev then (page_of h p).next else (page_of h q).next;
        prev = if q == (page_of h p).next then (page_of h p).prev else (page_of h q).prev;
      })
    (head : bin_head g a bin
      ≡ (if bin_head h a bin == p then (page_of h p).next else bin_head h a bin))
    (heads : (b : ℕ) → bin ≢ b → bin_head g a b ≡ bin_head h a b) where
  abbrev pub left : ℕ → List ℕ
  left = hold pages bin (erase p (pages bin))

  pub left-member : (b q : ℕ) → b < 75 → count q (left b) ≢ 0 → (q ≢ p) × (count q (pages b) ≢ 0)
  left-member b q lt m = elim (ℕ_discrete bin b) [
    | yes e ↦
        subst (λ t. (q ≢ p) × (count q (pages t) ≢ 0)) e
          (erased-others p q (pages bin) (listed.distinct bin in_range) member
            (rw (← e, (==_iff bin bin).1 refl) at m))
    | no ne ↦ (
      λ e. ne (
          sym (listed.binned bin p in_range member)
          ∙ listed.binned b p lt (subst (λ t. count t (pages b) ≢ 0) e (rw (ne→== bin b ne) at m))),
      rw (ne→== bin b ne) at m,
    )
  ]

  pub listed-ne-null : (b q : ℕ) → b < 75 → count q (pages b) ≢ 0 → q ≢ null
  listed-ne-null b q lt m = in_memory (links_of h) q null _ (pages b) (listed.linked b lt) m

  same_bin : Linked (links_of g) null (bin_head g a bin) (erase p (pages bin))
  same_bin = rw head (
      Linked-agree past (links_of g) null _ (erase p (pages bin))
        (λ y m.
          let (other, more) =
            erased-others p y (pages bin) (listed.distinct bin in_range) member m in
          let e = after y (listed-ne-null bin y in_range more) other in
          (ap (λ t. t.next) e, ap (λ t. t.prev) e))
        (Skips-Linked (links_of h) past p null (bin_head h a bin) (pages bin)
          (record { nexts = λ y ne. refl; prevs = λ y ne. refl })
          (null-not (links_of h) null _ (pages bin) (listed.linked bin in_range))
          (listed.distinct bin in_range) (listed.linked bin in_range) member))
    where
      past : Headers
      past y = record {
        base = null;
        size = 0;
        user_size = 0;
        next = if y == (page_of h p).prev then (page_of h p).next else (page_of h y).next;
        prev = if y == (page_of h p).next then (page_of h p).prev else (page_of h y).prev;
      }

  other_bin : (b : ℕ) → b < 75 → bin ≢ b → Linked (links_of g) null (bin_head g a b) (pages b)
  other_bin b lt ne =
      rw (heads b ne)
        (Linked-agree (links_of h) (links_of g) null _ (pages b) same (listed.linked b lt))
    where
      apart : (y z : ℕ) → count y (pages b) ≢ 0 → (z ≢ null → count z (pages bin) ≢ 0) → y ≢ z
      apart y z m in_bin e = ne (
          sym (
            listed.binned bin z in_range
              (in_bin (subst (λ t. t ≢ null) e (listed-ne-null b y lt m))))
          ∙ subst (λ t. (page_of h t).bin_idx ≡ b) e (listed.binned b y lt m))

      same :
          (y : ℕ)
          → count y (pages b) ≢ 0
          → ((page_of g y).next ≡ (page_of h y).next) × ((page_of g y).prev ≡ (page_of h y).prev)
      same y m =
          let e = after y (listed-ne-null b y lt m) (apart y p m (λ _. member)) in
          let back =
            apart y (page_of h p).prev m
              (prev_listed (links_of h) p _ (pages bin) (listed.linked bin in_range) member) in
          let on =
            apart y (page_of h p).next m
              (next_listed (links_of h) p _ (pages bin) (listed.linked bin in_range) member) in
          (
            ap (λ t. t.next) e ∙ rw (ne→== y (page_of h p).prev back) refl,
            ap (λ t. t.prev) e ∙ rw (ne→== y (page_of h p).next on) refl,
          )

  pub left-IsListed : IsListed g a left
  left-IsListed = record {
    linked = λ b lt. elim (ℕ_discrete bin b) [
      | yes e ↦
          subst (λ t. Linked (links_of g) null (bin_head g a t) (left t)) e
            (rw ((==_iff bin bin).1 refl) same_bin)
      | no ne ↦ rw (ne→== bin b ne) (other_bin b lt ne)
    ];
    distinct = λ b lt. elim (ℕ_discrete bin b) [
      | yes e ↦
          subst (λ t. Distinct (left t)) e
            (rw ((==_iff bin bin).1 refl)
              (erase-Distinct p (pages bin) (listed.distinct bin in_range)))
      | no ne ↦ rw (ne→== bin b ne) (listed.distinct b lt)
    ];
    binned = λ b q lt m.
        let (other, more) = left-member b q lt m in
        ap (λ (t : Page). t.bin_idx) (after q (listed-ne-null b q lt more) other)
        ∙ listed.binned b q lt more;
  }
