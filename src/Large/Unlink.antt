-- ===== src/Large/Unlink.antt =====
-- Taking a header out of the list of src/large.c, and large_free.
use malloc.Common.{
  ℕ, ◌≡◌, ◌≢◌, ◌⊎◌, inl, inr, List, [], ◌∷◌, ◌==◌, if◌then◌else◌, arith, refl, sym, ◌∙◌, true,
  false, Bool-cases, ne→==, ==_iff, ==→ne,
}
use malloc.Memory.{null}
use malloc.Memory.Chain.{count, erase}
use malloc.Large.{Headers}
use malloc.Large.Linked.{Linked, Linked-agree, Distinct}

-- The links around `la` in h lead past it in g, and g keeps all other links.
pub record Skips (h g : Headers) (la : ℕ) : Type 0 where
  pub nexts :
      (y : ℕ) → y ≢ null → (g y).next ≡ (if y == (h la).prev then (h la).next else (h y).next)
  pub prevs :
      (y : ℕ) → y ≢ null → (g y).prev ≡ (if y == (h la).next then (h la).prev else (h y).prev)

-- What follows a header of the list is in the list, or NULL.
pub next_inside :
    (h : Headers) (la y before head : ℕ) (xs : List ℕ)
    → Linked h before head xs
    → count la xs ≢ 0
    → count y xs ≡ 0
    → y ≢ null
    → y ≢ (h la).next
next_inside h la y before head [] l m out ne = absurd (m refl)
next_inside h la y before head (x ∷ []) l m out ne = elim (Bool-cases (la == x)) [
  | inl same ↦ rw ((==_iff la x).0 same, l.3) ne
  | inr other ↦ absurd (ground arith)
]
next_inside h la y before head (x ∷ z ∷ zs) l m out ne = elim (Bool-cases (la == x)) [
  | inl same ↦ rw ((==_iff la x).0 same, l.3.0) (λ e. ground arith)
  | inr other ↦ next_inside h la y x (h x).next (z ∷ zs) l.3 (ground arith) (ground arith) ne
]

-- What precedes a header of the list, but for the first, is in the list.
pub prev_inside :
    (h : Headers) (la y before head : ℕ) (xs : List ℕ)
    → Linked h before head xs
    → la ≢ head
    → count la xs ≢ 0
    → count y xs ≡ 0
    → y ≢ (h la).prev
prev_inside h la y before head [] l ne m out = absurd (m refl)
prev_inside h la y before head (x ∷ []) l ne m out = absurd (ground (arith, l.0))
prev_inside h la y before head (x ∷ z ∷ zs) l ne m out = elim (Bool-cases (la == z)) [
  | inl same ↦ rw ((==_iff la z).0 same, l.3.2) (λ e. ground arith)
  | inr other ↦
      prev_inside h la y x (h x).next (z ∷ zs) l.3 (rw l.3.0 (==→ne la z other))
        (ground (arith, l.0)) (ground arith)
]

pub in_memory :
    (h : Headers) (y before head : ℕ) (xs : List ℕ)
    → Linked h before head xs
    → count y xs ≢ 0
    → y ≢ null
in_memory h y before head [] l m = absurd (m refl)
in_memory h y before head (x ∷ xs) l m = elim (Bool-cases (y == x)) [
  | inl same ↦ rw ((==_iff y x).0 same) l.1
  | inr other ↦ in_memory h y x (h x).next xs l.3 (ground arith)
]

-- The first header taken out.
first_out :
    (h g : Headers) (x before : ℕ) (xs : List ℕ)
    → Skips h g x
    → count before (x ∷ xs) ≡ 0
    → Distinct (x ∷ xs)
    → (h x).prev ≡ before
    → Linked h x (h x).next xs
    → Linked g before (h x).next xs
first_out h g x before [] k out d back l = l
first_out h g x before (z ∷ zs) k out d back l = (
  l.0,
  l.1,
  k.prevs z l.1 ∙ ground (arith, l.0, back),
  rw (k.nexts z l.1, back, ne→== z before (λ e. ground arith))
      (Linked-agree h g z (h z).next zs kept l.3),
)
  where
    kept : (y : ℕ) → count y zs ≢ 0 → ((g y).next ≡ (h y).next) × ((g y).prev ≡ (h y).prev)
    kept y m =
        let some_y = in_memory h y z (h z).next zs l.3 m in
        (
          k.nexts y some_y ∙ rw (back, ne→== y before (λ e. ground arith)) refl,
          k.prevs y some_y ∙ rw (l.0, ne→== y z (λ e. ground arith)) refl,
        )

-- A later header taken out, with what is left of the list after the first.
later_out :
    (h g : Headers) (la x before : ℕ) (xs : List ℕ)
    → Skips h g la
    → count x xs ≡ 0
    → x ≢ null
    → (h x).prev ≡ before
    → Linked h x (h x).next xs
    → count la xs ≢ 0
    → Linked g x (if (h x).next == la then (h la).next else (h x).next) (erase la xs)
    → ((g x).prev ≡ before) × Linked g x (g x).next (erase la xs)
later_out h g la x before xs k out ne back l m left = (
  k.prevs x ne ∙ rw (ne→== x (h la).next (next_inside h la x x (h x).next xs l m out ne)) back,
  rest (Bool-cases ((h x).next == la)),
)
  where
    first_back :
        (y : ℕ) (ys : List ℕ) → Linked h x y ys → count la ys ≢ 0 → y ≡ la → (h la).prev ≡ x
    first_back y [] l m e = absurd (m refl)
    first_back y (z ∷ zs) l m e = rw (← e, l.0) l.2

    rest :
        (((h x).next == la) ≡ true) ⊎ (((h x).next == la) ≡ false)
        → Linked g x (g x).next (erase la xs)
    rest (inl first) =
        rw (k.nexts x ne, first_back (h x).next xs l m ((==_iff _ la).0 first), (==_iff x x).1 refl)
          (rw first at left)
    rest (inr deeper) =
        rw
          (
            k.nexts x ne,
            ne→== x (h la).prev
                (prev_inside h la x x (h x).next xs l (λ e. ==→ne _ _ deeper (sym e)) m out),
          )
          (rw deeper at left)

pub Skips-Linked :
    (h g : Headers) (la before head : ℕ) (xs : List ℕ)
    → Skips h g la
    → count before xs ≡ 0
    → Distinct xs
    → Linked h before head xs
    → count la xs ≢ 0
    → Linked g before (if head == la then (h la).next else head) (erase la xs)
Skips-Linked h g la before head [] k out d l m = absurd (m refl)
Skips-Linked h g la before head (x ∷ xs) k out d l m = elim (Bool-cases (la == x)) [
  | inl same ↦
      let e = (==_iff la x).0 same in
      rw (l.0, (==_iff x la).1 (sym e), same, e)
        (first_out h g x before xs (rw e at k) out d l.2 l.3)
  | inr other ↦
      let ne = ==→ne la x other in
      let more : count la xs ≢ 0 = ground arith in
      let left = Skips-Linked h g la x (h x).next xs k d.0 d.1 l.3 more in
      rw (l.0, ne→== x la (λ e. ne (sym e)), other)
        (let (back, rest) = later_out h g la x before xs k d.0 l.1 l.2 l.3 more left in
          (refl, l.1, back, rest))
]
