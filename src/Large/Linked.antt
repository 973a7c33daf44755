-- ===== src/Large/Linked.antt =====
-- The list of headers of src/large.c as a list of addresses; the bins of src/arena.c are linked alike.
use malloc.Common.{
  ℕ, ◌≡◌, ◌≢◌, refl, List, [], ◌∷◌, ◌<◌, ◌^◌, ◌==◌, if◌then◌else◌, length, ap, ◌∙◌, ne→==, ==_iff,
  arith, Bool-cases, inl, inr,
}
use malloc.Memory.{null}
use malloc.Memory.Chain.{count, erase}
use malloc.Large.{Headers, Large}

-- From `head`, `next` leads through exactly `xs` to NULL; `prev` leads back, from `head` to `before`.
abbrev pub Linked : Headers → (before head : ℕ) → List ℕ → Type 0
Linked h before head [] = head ≡ null
Linked h before head (x ∷ xs) =
    (head ≡ x) × (x ≢ null) × ((h x).prev ≡ before) × Linked h x (h x).next xs

-- No address occurs twice.
abbrev pub Distinct : List ℕ → Type 0
Distinct [] = null ≡ null
Distinct (x ∷ xs) = (count x xs ≡ 0) × Distinct xs

-- The headers in the list are `xs`, and there are large_alloc_count of them.
pub record IsLarge (s : Large) (xs : List ℕ) : Type 0 where
  pub linked : Linked s.headers null s.large_list xs
  pub distinct : Distinct xs
  pub counted : s.large_alloc_count ≡ length xs
  pub bounded : length xs < 2 ^ 64

-- Headers that agree at the addresses of the list have the same list.
pub Linked-agree :
    (h g : Headers) (before head : ℕ) (xs : List ℕ)
    → ((y : ℕ) → count y xs ≢ 0 → ((g y).next ≡ (h y).next) × ((g y).prev ≡ (h y).prev))
    → Linked h before head xs
    → Linked g before head xs
Linked-agree h g before head [] same l = l
Linked-agree h g before head (x ∷ xs) same l =
    let here = same x (ground arith) in
    (
      l.0,
      l.1,
      rw here.1 l.2,
      rw here.0 (Linked-agree h g x (h x).next xs (λ y m. same y (ground arith)) l.3),
    )

pub null-not :
    (h : Headers) (before head : ℕ) (xs : List ℕ) → Linked h before head xs → count null xs ≡ 0
null-not h before head [] l = refl
null-not h before head (x ∷ xs) l = ground (arith, null-not h x (h x).next xs l.3)

pub erase-missing : (a x : ℕ) (xs : List ℕ) → count x xs ≡ 0 → count x (erase a xs) ≡ 0
erase-missing a x [] h = refl
erase-missing a x (y ∷ xs) h = ground (arith, erase-missing a x xs)

pub erase-Distinct : (a : ℕ) (xs : List ℕ) → Distinct xs → Distinct (erase a xs)
erase-Distinct a [] d = d
erase-Distinct a (x ∷ xs) d = elim (Bool-cases (a == x)) [
  | inl same ↦ rw same d.1
  | inr other ↦ rw other (erase-missing a x xs d.0, erase-Distinct a xs d.1)
]

pub head_listed :
    (h : Headers) (head : ℕ) (xs : List ℕ) → Linked h null head xs → head ≢ null → count head xs ≢ 0
head_listed h head [] l ne = absurd (ne l)
head_listed h head (x ∷ xs) l ne = ground (arith, l.0)

-- A header put before the list.
pub first_in :
    (h g : Headers) (p head : ℕ) (xs : List ℕ)
    → Linked h null head xs
    → Distinct xs
    → ((y : ℕ) → count y xs ≢ 0 → (g y).next ≡ (h y).next)
    → ((y : ℕ) → count y xs ≢ 0 → (g y).prev ≡ (if y == head then p else (h y).prev))
    → Linked g p head xs
first_in h g p head [] l d nexts prevs = l
first_in h g p head (x ∷ xs) l d nexts prevs = (
  l.0,
  l.1,
  prevs x (ground arith) ∙ rw (l.0, (==_iff x x).1 refl) refl,
  rw (nexts x (ground arith)) (
      Linked-agree h g x (h x).next xs
        (λ y m. (
          nexts y (ground arith),
          prevs y (ground arith) ∙ rw (ne→== y head (λ e. later y m (e ∙ l.0))) refl,
        ))
        l.3),
)
  where
    later : (y : ℕ) → count y xs ≢ 0 → y ≢ x
    later y m e = m (ap (λ t. count t xs) e ∙ d.0)
