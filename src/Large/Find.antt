-- ===== src/Large/Find.antt =====
-- What the search of src/large.c finds.
use malloc.Common.{
  ℕ, ◌≡◌, ◌≢◌, inl, inr, List, [], ◌∷◌, length, ◌==◌, arith, refl, true, false, Bool-cases, some,
  ne→==, ==_iff,
}
use malloc.Memory.{null}
use malloc.Memory.Chain.{count}
use malloc.Large.{Headers, Large, covers, find_loop, large_find}
use malloc.Large.Linked.{Linked, IsLarge}

-- Some header of the list has a mapping that holds ptr, and r is such a header; or none has, and r
-- is NULL.
pub record IsFound (h : Headers) (xs : List ℕ) (ptr r : ℕ) : Type 0 where
  pub found : r ≢ null → (count r xs ≢ 0) × (covers (h r) ptr ≡ true)
  pub missed : r ≡ null → (y : ℕ) → count y xs ≢ 0 → covers (h y) ptr ≡ false

later :
    (h : Headers) (x : ℕ) (xs : List ℕ) (ptr r : ℕ)
    → covers (h x) ptr ≡ false
    → IsFound h xs ptr r
    → IsFound h (x ∷ xs) ptr r
later h x xs ptr r out f = record {
  found = λ ne. (omega (arith, (f.found ne).0), (f.found ne).1);
  missed = λ e y m. elim (Bool-cases (y == x)) [
    | inl same ↦ rw ((==_iff y x).0 same) out
    | inr other ↦ f.missed e y (ground arith)
  ];
}

pub find_loop-IsFound :
    (h : Headers) (ptr before head : ℕ) (xs : List ℕ)
    → Linked h before head xs
    → (r : ℕ) × (find_loop (length xs) h ptr head ≡ some r) × IsFound h xs ptr r
unfolding find_loop
find_loop-IsFound h ptr before head [] l =
    (null, rw l refl, record { found = λ ne. absurd (ne refl); missed = λ e y m. absurd (m refl) })
find_loop-IsFound h ptr before head (x ∷ xs) l =
    let (r, e, f) = find_loop-IsFound h ptr x (h x).next xs l.3 in
    elim (Bool-cases (covers (h x) ptr)) [
      | inl here ↦ (
        x,
        rw (l.0, ne→== x null l.1, here) refl,
        record { found = λ ne. (ground arith, here); missed = λ e. absurd (l.1 e) },
      )
      | inr past ↦ (r, rw (l.0, ne→== x null l.1, past) e, later h x xs ptr r past f)
    ]

-- large_find ends, and finds a header of the list whose mapping holds the pointer if there is one,
-- and NULL if there is none.
pub large_find-IsFound :
    (s : Large) (xs : List ℕ) (ptr : ℕ)
    → IsLarge s xs
    → (r : ℕ) × (large_find s ptr ≡ some r) × IsFound s.headers xs ptr r
unfolding large_find
large_find-IsFound s xs ptr v =
    rw v.counted (find_loop-IsFound s.headers ptr null s.large_list xs v.linked)
