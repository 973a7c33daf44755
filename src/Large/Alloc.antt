-- ===== src/Large/Alloc.antt =====
-- What large_alloc_aligned of src/large.c does.
use malloc.Common.{
  ℕ, ◌+◌, ◌^◌, ◌<◌, ◌≡◌, ◌≢◌, List, [], ◌∷◌, length, ◌==◌, if◌then◌else◌, arith, refl, sym, ◌∙◌,
  ne→==, ==_iff, u64, ap, subst,
}
use malloc.Memory.{null}
use malloc.Memory.Chain.{count}
use malloc.Large.{Headers, Large, link}
use malloc.Large.Unlink.{in_memory}
use malloc.Large.Linked.{Linked, Linked-agree, Distinct, IsLarge}

-- A list of headers with a new one before its first.
put_first :
    (h g : Headers) (la head : ℕ) (xs : List ℕ)
    → ((y : ℕ) → y ≢ la → (g y).next ≡ (h y).next)
    → ((y : ℕ) → y ≢ la → y ≢ null → (g y).prev ≡ (if y == head then la else (h y).prev))
    → count la xs ≡ 0
    → Distinct xs
    → Linked h null head xs
    → Linked g la head xs
put_first h g la head [] nexts prevs new d l = l
put_first h g la head (x ∷ xs) nexts prevs new d l = (
  l.0,
  l.1,
  prevs x other l.1 ∙ rw ((==_iff x head).1 (sym l.0)) refl,
  rw (nexts x other) (Linked-agree h g x (h x).next xs kept l.3),
)
  where
    other : x ≢ la
    other e = ground arith

    kept : (y : ℕ) → count y xs ≢ 0 → ((g y).next ≡ (h y).next) × ((g y).prev ≡ (h y).prev)
    kept y m =
        let apart : y ≢ la = λ e. ground arith in
        let some_y = in_memory h y x (h x).next xs l.3 m in
        (nexts y apart, prevs y apart some_y ∙ rw (l.0, ne→== y x (λ e. ground arith)) refl)

new_first :
    (h : Headers) (before head la : ℕ) (xs : List ℕ)
    → Linked h before head xs
    → count la xs ≡ 0
    → la ≢ null
    → la ≢ head
new_first h before head la [] l new ne = λ e. ne (e ∙ l)
new_first h before head la (x ∷ xs) l new ne = λ e. ground (arith, l.0)

pub link-IsLarge :
    (s : Large) (xs : List ℕ) (la size user_size : ℕ) (t : Large)
    → IsLarge s xs
    → la ≢ null
    → count la xs ≡ 0
    → length xs + 1 < 2 ^ 64
    → t.large_list ≡ (link la size user_size s).large_list
    → t.headers ≡ (link la size user_size s).headers
    → t.large_alloc_count ≡ u64 (s.large_alloc_count + 1)
    → IsLarge t (la ∷ xs)
unfolding link
link-IsLarge s xs la size user_size t v ne new fits eh el ec = record {
  linked = (
    eh,
    ne,
    ap (λ h. (h la).prev) el ∙ back,
    subst (λ q. Linked t.headers la q xs) (sym (ap (λ h. (h la).next) el ∙ forth))
        (put_first s.headers t.headers la s.large_list xs
          (λ y d. ap (λ h. (h y).next) el ∙ next_kept y d)
          (λ y d some_y. ap (λ h. (h y).prev) el ∙ prev_kept y d some_y) new v.distinct v.linked),
  );
  distinct = (new, v.distinct);
  counted = omega (arith, ec, v.counted);
  bounded = omega (arith, fits);
}
  where
    first : la ≢ s.large_list
    first = new_first s.headers null s.large_list la xs v.linked new ne

    back : ((link la size user_size s).headers la).prev ≡ null
    back = ground (arith, first)

    forth : ((link la size user_size s).headers la).next ≡ s.large_list
    forth = ground (arith, first)

    next_kept : (y : ℕ) → y ≢ la → ((link la size user_size s).headers y).next ≡ (s.headers y).next
    next_kept y d = ground arith

    prev_kept :
        (y : ℕ)
        → y ≢ la
        → y ≢ null
        → ((link la size user_size s).headers y).prev
          ≡ (if y == s.large_list then la else (s.headers y).prev)
    prev_kept y d some_y = ground arith
