-- ===== src/Memory/Chain.antt =====
-- Linked lists of free slots, and how often an address occurs in one.
use malloc.Common.{
  ℕ, ◌+◌, ◌≡◌, ◌≢◌, refl, subst, List, [], ◌∷◌, ◌++◌, arith, if◌then◌else◌, ◌==◌, length,
}
use malloc.Memory.{Mem, null, write}

-- From `p` the links lead through exactly the addresses `xs`, none of them NULL, to NULL.
abbrev pub Chain : Mem → ℕ → List ℕ → Type 0
Chain m p [] = p ≡ null
Chain m p (x ∷ xs) = (p ≡ x) × (x ≢ null) × Chain m (m x) xs

-- 1 where the addresses are the same, 0 elsewhere
abbrev pub hit : ℕ → ℕ → ℕ
hit a b = if a == b then 1 else 0

abbrev pub count : ℕ → List ℕ → ℕ
count a [] = 0
count a (x ∷ xs) = hit a x + count a xs

-- the list without its first `a`
abbrev pub erase : ℕ → List ℕ → List ℕ
erase a [] = []
erase a (x ∷ xs) = if a == x then xs else x ∷ erase a xs

pub count-append :
    (free more : List ℕ) (a : ℕ) → count a (free ++ more) ≡ count a free + count a more
count-append (x ∷ free) more a = omega (arith, count-append free more a)
count-append [] more a = omega arith

pub count-erase :
    (a b : ℕ) (xs : List ℕ) → count a xs ≢ 0 → count b (erase a xs) + hit b a ≡ count b xs
count-erase a b [] h = absurd (h refl)
count-erase a b (x ∷ xs) h = ground (arith, count-erase a b xs)

pub length-erase : (a : ℕ) (xs : List ℕ) → count a xs ≢ 0 → length (erase a xs) + 1 ≡ length xs
length-erase a [] h = absurd (h refl)
length-erase a (x ∷ xs) h = ground (arith, length-erase a xs)

-- A write at an address that is not in a list leaves the list alone.
pub Chain-write :
    (m : Mem) (a v p : ℕ) (xs : List ℕ) → count a xs ≡ 0 → Chain m p xs → Chain (write m a v) p xs
Chain-write m a v p [] h c = c
Chain-write m a v p (x ∷ xs) h c = (
  c.0,
  c.1,
  subst (λ q. Chain (write m a v) q xs) other (Chain-write m a v (m x) xs (ground arith) c.2),
)
  where
    other : m x ≡ write m a v x
    other = ground arith

pub Chain-nonempty : (m : Mem) (p : ℕ) (xs : List ℕ) → p ≢ null → Chain m p xs → xs ≢ []
Chain-nonempty m p xs h c = ground arith
