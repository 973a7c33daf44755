-- ===== src/Large/Block.antt =====
-- The block that large_alloc_aligned of src/large.c hands out.
use malloc.Common.{
  ℕ, ◌+◌, ◌*◌, ◌%◌, ◌^◌, ◌<◌, ◌≤◌, ◌≡◌, ◌≢◌, inl, inr, List, ◌∷◌, length, ltb, if◌then◌else◌, arith,
  refl, true, Bool-cases, some, ne→==, u64, ltb→lt, ge→ltb, subst,
}
use native.Mathlib.Nat.{mod-eq-zero_of_dvd, dvd_of_mod-eq-zero, dvd-add}
use malloc.Common.Mask.{align_up, align_up-IsRoundUp, IsRoundUp}
use malloc.Memory.{null}
use malloc.Memory.Chain.{count}
use malloc.Os.{Os, Kernel, os_mmap_aligned, os_page_size}
use malloc.Os.Aligned.{mapped, within, asked, IsAnswer, Maps, os_mmap_aligned-Maps, pow-le-mod}
use malloc.Large.{Large, link, enlist, large_alloc, large_alloc_aligned, header_space, total_size}
use malloc.Large.Linked.{IsLarge}
use malloc.Large.Alloc.{link-IsLarge}

-- A block of `size` bytes at `p` has a new mapping, from `la`, with a header for it at its start and
-- all the block behind the header.
pub record IsBlock (s : Large) (xs : List ℕ) (size alignment p la : ℕ) (t : Large) : Type 0 where
  pub listed : IsLarge t (la ∷ xs)
  pub aligned : p % alignment ≡ 0
  pub behind : la + 48 ≤ p
  pub room : p + size ≤ la + (t.headers la).size
  pub not_wrapped : la + (t.headers la).size < 2 ^ 64
  pub based : (t.headers la).base ≡ la
  pub usable : (t.headers la).user_size ≡ size
  pub maps : Maps s.os (t.headers la).size la t.os
  pub bytes : t.large_allocated ≡ u64 (s.large_allocated + size)

-- the alignment that the mapping is asked with
abbrev pub map_alignment : (page_size alignment : ℕ) → ℕ
map_alignment page_size alignment = if ltb alignment page_size then page_size else alignment

enlist-IsBlock :
    (s : Large) (xs : List ℕ) (base total size alignment space : ℕ) (os : Os)
    → IsLarge s xs
    → ((y : ℕ) → count y xs ≢ 0 → mapped s.os.calls y ≡ true)
    → length xs + 1 < 2 ^ 64
    → base % alignment ≡ 0
    → Maps s.os total base os
    → space % alignment ≡ 0
    → 48 ≤ space
    → space + size ≤ total
    → IsBlock s xs size alignment (u64 (base + space)) base (enlist base total size os s)
unfolding enlist link
enlist-IsBlock s xs base total size alignment space os v backed more base_aligned maps space_aligned
      header fits =
    record {
      listed =
          link-IsLarge s xs base total size (enlist base total size os s) v some_base new more refl
            refl refl;
      aligned = rw no_wrap (
          mod-eq-zero_of_dvd alignment (
            dvd-add alignment (dvd_of_mod-eq-zero alignment base_aligned)
              (dvd_of_mod-eq-zero alignment space_aligned)));
      behind = omega (arith, no_wrap, header);
      room = rw sized (omega (arith, no_wrap, fits));
      not_wrapped = rw sized maps.not_wrapped;
      based = ground arith;
      usable = ground arith;
      maps = rw sized maps;
      bytes = refl;
    }
  where
    some_base : base ≢ null
    some_base = omega (arith, maps.given)

    no_wrap : u64 (base + space) ≡ base + space
    no_wrap = omega (arith, maps.not_wrapped, fits)

    sized : ((enlist base total size os s).headers base).size ≡ total
    sized = ground arith

    inside : within base total base ≡ true
    inside = ground (arith, header, fits)

    new : count base xs ≡ 0
    new = ground (arith, maps.unused base inside, backed base)

module _ (k : Kernel) (s : Large) (xs : List ℕ) (size i n j q p : ℕ) (ei : i + n ≡ 64)
    (ej : j + q ≡ 64) (pages : k.page_size ≡ 2 ^ j) (least : 16 ≤ 2 ^ i)
    (fits : size + 2 * (2 ^ i + 2 ^ j) + 48 ≤ 2 ^ 64) where
  space : IsRoundUp 48 (2 ^ i) (header_space (2 ^ i))
  space = align_up-IsRoundUp i n 48 ei (omega (arith, fits))

  total : IsRoundUp (header_space (2 ^ i) + size) (2 ^ j) (total_size k.page_size size (2 ^ i))
  total =
      rw (pages, plain)
        (align_up-IsRoundUp j q (header_space (2 ^ i) + size) ej (omega (arith, space.near, fits)))
    where
      plain : u64 (header_space (2 ^ i) + size) ≡ header_space (2 ^ i) + size
      plain = omega (arith, space.near, fits)

  -- The kernel's side, for the alignment that is asked.
  mapping :
      (a b : ℕ)
      → a + b ≡ 64
      → map_alignment k.page_size (2 ^ i) ≡ 2 ^ a
      → 2 ^ i ≤ 2 ^ a
      → 2 ^ a ≤ 2 ^ i + 2 ^ j
      → let total = total_size k.page_size size (2 ^ i) in
        k.answer (asked k total (2 ^ a)) ≡ some p
        → IsAnswer k.page_size s.os (asked k total (2 ^ a)) p
        → let r = os_mmap_aligned k total (map_alignment k.page_size (2 ^ i)) s.os in
          (r.0 % 2 ^ i ≡ 0) × Maps s.os total r.0 r.1
  mapping a b e same le ge got ans =
      let m =
        os_mmap_aligned-Maps k (total_size k.page_size size (2 ^ i)) a j b p s.os pages e
          (omega (arith, total.near, space.near, fits)) got ans in
      rw same (pow-le-mod i a _ le m.0, m.1)

-- If mmap succeeds for the length and the alignment that it is asked for, large_alloc_aligned returns
-- a block of the size and the alignment, a power of two from MIN_ALIGN on, that were asked for. It has
-- a fresh mapping with its header at the start, and the header comes first in a list that is well
-- linked as before. The sizes must not come near 2^64, and every header must lie in mapped memory.
pub large_alloc_aligned-IsBlock :
    (k : Kernel) (s : Large) (xs : List ℕ) (size i n j q p : ℕ)
    → i + n ≡ 64
    → j + q ≡ 64
    → k.page_size ≡ 2 ^ j
    → 16 ≤ 2 ^ i
    → size + 2 * (2 ^ i + 2 ^ j) + 48 ≤ 2 ^ 64
    → IsLarge s xs
    → ((y : ℕ) → count y xs ≢ 0 → mapped s.os.calls y ≡ true)
    → length xs + 1 < 2 ^ 64
    → let length =
        asked k (total_size k.page_size size (2 ^ i)) (map_alignment k.page_size (2 ^ i)) in
      k.answer length ≡ some p
      → IsAnswer k.page_size s.os length p
      → let r = large_alloc_aligned k size (2 ^ i) s in
        (la : ℕ) × IsBlock s xs size (2 ^ i) r.0 la r.1
unfolding large_alloc_aligned os_page_size
large_alloc_aligned-IsBlock k s xs size i n j q p ei ej pages least fits v backed more got ans = (
  m.0,
  rw (ge→ltb (2 ^ i) 16 least, ne→== m.0 null (omega (arith, made.1.given)))
      (enlist-IsBlock s xs m.0 (total_size k.page_size size (2 ^ i)) size (2 ^ i)
        (header_space (2 ^ i)) m.1 v backed more made.0 made.1 sp.aligned sp.above
        (total k s xs size i n j q p ei ej pages least fits).above),
)
  where
    sp : IsRoundUp 48 (2 ^ i) (header_space (2 ^ i))
    sp = space k s xs size i n j q p ei ej pages least fits

    m : ℕ × Os
    m =
        os_mmap_aligned k (total_size k.page_size size (2 ^ i)) (map_alignment k.page_size (2 ^ i))
          s.os

    at_page : ℕ → Type 0
    at_page t = k.answer (asked k (total_size k.page_size size (2 ^ i)) t) ≡ some p

    ok_page : ℕ → Type 0
    ok_page t = IsAnswer k.page_size s.os (asked k (total_size k.page_size size (2 ^ i)) t) p

    made : (m.0 % 2 ^ i ≡ 0) × Maps s.os (total_size k.page_size size (2 ^ i)) m.0 m.1
    made = elim (Bool-cases (ltb (2 ^ i) k.page_size)) [
      | inl small ↦
          mapping k s xs size i n j q p ei ej pages least fits j q ej (rw small pages)
            (rw (← pages) (omega (arith, ltb→lt _ _ small))) (omega arith)
            (subst at_page (rw small pages) got) (subst ok_page (rw small pages) ans)
      | inr large ↦
          mapping k s xs size i n j q p ei ej pages least fits i n ei (rw large refl) (omega arith)
            (omega arith) (rw large at got) (rw large at ans)
    ]

wrapped_total : (size : ℕ) → 2 ^ 64 < size + 48 → size < 2 ^ 64 → total_size 4096 size 16 ≡ 4096
unfolding align_up
wrapped_total size lo hi = omega (arith, up.aligned, up.above, up.near)
  where
    up : IsRoundUp (u64 (48 + size)) (2 ^ 12) (align_up (u64 (48 + size)) (2 ^ 12))
    up = align_up-IsRoundUp 12 52 (u64 (48 + size)) refl (omega arith)

-- With pages of 4096 bytes, a request for more than 2^64 - 48 bytes does not fail where mmap succeeds:
-- the total wraps around, and the pointer lies in a mapping of a single page.
pub large_alloc_wraps :
    (k : Kernel) (s : Large) (size p : ℕ)
    → 2 ^ 64 < size + 48
    → size < 2 ^ 64
    → k.page_size ≡ 4096
    → k.answer 4096 ≡ some p
    → 0 < p
    → p + 4096 < 2 ^ 64
    → let r = large_alloc k size s in
      (r.0 ≡ p + 48)
      × (r.1.large_list ≡ p)
      × ((r.1.headers p).size ≡ 4096)
      × ((r.1.headers p).user_size ≡ size)
unfolding large_alloc large_alloc_aligned os_page_size os_mmap_aligned enlist link align_up
large_alloc_wraps k s size p lo hi page got some_p ends =
    rw (page, wrapped_total size lo hi, got, ne→== p 0 (omega arith))
      (omega arith, refl, ground arith, ground arith)
