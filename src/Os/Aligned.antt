-- ===== src/Os/Aligned.antt =====
-- What os_mmap_aligned leaves mapped.
use malloc.Common.{
  ℕ, zero, suc, ◌+◌, ◌-◌, ◌*◌, ◌%◌, ◌^◌, ◌<◌, ◌≤◌, ◌≡◌, Bool, true, false, ◌&&◌, ◌||◌, some, List,
  [], ◌∷◌, ltb, leb, arith, leb→le, Bool-cases, inl, inr, ap, sym, subst, ◌∙◌, dec_le, refl,
  if◌then◌else◌, u64, sub64,
}
use Prim.Native.Nat.{◌∣◌}
use native.Mathlib.Nat.{
  add-zero, add-suc, pow-suc, mul_assoc, mod-eq-zero_of_dvd, dvd_of_mod-eq-zero, dvd_trans,
  dvd-mul_right, pow-le-pow_right, one-le-pow,
}
use malloc.Common.Mask.{align_up, align_up-IsRoundUp, IsRoundUp}
use malloc.Os.{
  Call, mmap, mmap_failed, munmap, madvise, Os, Kernel, call, os_mmap_aligned, trim_head, trim_tail,
}

abbrev pub within : ℕ → ℕ → ℕ → Bool
within start size a = leb start a && ltb a (start + size)

-- Whether the address is mapped after the calls, the latest first.
abbrev pub mapped : List Call → ℕ → Bool
mapped [] a = false
mapped (mmap size p ∷ cs) a = within p size a || mapped cs a
mapped (mmap_failed size ∷ cs) a = mapped cs a
mapped (munmap p size ∷ cs) a = if within p size a then false else mapped cs a
mapped (madvise p size ∷ cs) a = mapped cs a

-- What mmap documents of the address that it returns: a page boundary, not NULL, of a range that
-- ends below 2^64 and was not mapped.
pub record IsAnswer (page_size : ℕ) (os : Os) (size p : ℕ) : Type 0 where
  pub some_address : 0 < p
  pub on_page : p % page_size ≡ 0
  pub ends : p + size < 2 ^ 64
  pub fresh : (a : ℕ) → within p size a ≡ true → mapped os.calls a ≡ false

-- A block of `size` bytes at `q`, none of them mapped before, has been added to the mapped memory, and
-- nothing else has changed.
pub record Maps (os : Os) (size q : ℕ) (r : Os) : Type 0 where
  pub not_wrapped : q + size < 2 ^ 64
  pub given : 0 < q
  pub unused : (a : ℕ) → within q size a ≡ true → mapped os.calls a ≡ false
  pub exactly : (a : ℕ) → mapped r.calls a ≡ (within q size a || mapped os.calls a)
  pub bytes : r.mmap_bytes ≡ u64 (os.mmap_bytes + size)

-- What is left between the trims.
trims :
    (os : Os) (p q size extra a : ℕ)
    → p ≤ q
    → q + size ≤ p + extra
    → (within p extra a ≡ true → mapped os.calls a ≡ false)
    → mapped (trim_tail (q + size) (p + extra) (trim_head p q (call os (mmap extra p)))).calls a
      ≡ (within q size a || mapped os.calls a)
unfolding trim_head trim_tail
trims os p q size extra a lo hi fresh = ground arith

trims-bytes :
    (os : Os) (p q end stop : ℕ)
    → (trim_tail end stop (trim_head p q os)).mmap_bytes ≡ os.mmap_bytes
unfolding trim_head trim_tail
trims-bytes os p q end stop = ground arith

pow-split : (i d : ℕ) → 2 ^ (i + d) ≡ 2 ^ i * 2 ^ d
pow-split i zero = rw (add-zero i) (omega arith)
pow-split i (suc d) =
    rw (add-suc i d, pow-suc 2 (i + d), pow-suc 2 d, pow-split i d) (mul_assoc (2 ^ i) (2 ^ d) 2)

pub pow-le-mod : (i j p : ℕ) → 2 ^ i ≤ 2 ^ j → p % 2 ^ j ≡ 0 → p % 2 ^ i ≡ 0
pow-le-mod i j p h m = elim (dec_le i j) [
  | yes le ↦
      mod-eq-zero_of_dvd (2 ^ i) (dvd_trans (2 ^ i) (divides le) (dvd_of_mod-eq-zero (2 ^ j) m))
  | no gt ↦ absurd (
      omega (
        arith,
        pow-le-pow_right {n = 2} (omega arith) {i = suc j} {j = i} (omega arith),
        pow-suc 2 j,
        one-le-pow j 2 (omega arith),
      ))
]
  where
    divides : i ≤ j → 2 ^ i ∣ 2 ^ j
    divides le =
        subst (λ t. 2 ^ i ∣ t) (sym (pow-split i (j - i)) ∙ ap (λ t. 2 ^ t) (omega arith))
          (dvd-mul_right (2 ^ i) (2 ^ (j - i)))

-- The length that os_mmap_aligned asks the kernel for.
abbrev pub asked : Kernel → ℕ → ℕ → ℕ
asked k size alignment = if leb alignment k.page_size then size else size + alignment - 1

module _ (k : Kernel) (size i j n p : ℕ) (os : Os) (e : i + n ≡ 64) where
  direct :
      k.page_size ≡ 2 ^ j
      → leb (2 ^ i) k.page_size ≡ true
      → k.answer size ≡ some p
      → IsAnswer k.page_size os size p
      → let r = os_mmap_aligned k size (2 ^ i) os in (r.0 % 2 ^ i ≡ 0) × Maps os size r.0 r.1
  unfolding os_mmap_aligned
  direct pages small got ans =
      rw (small, got)
        (
          pow-le-mod i j p (rw (← pages) (leb→le _ _ small)) (rw (← pages) ans.on_page),
          record {
            not_wrapped = ans.ends;
            given = ans.some_address;
            unused = ans.fresh;
            exactly = λ a. refl;
            bytes = refl;
          },
        )

  cut :
      leb (2 ^ i) k.page_size ≡ false
      → size + 2 ^ i ≤ 2 ^ 64
      → k.answer (size + 2 ^ i - 1) ≡ some p
      → IsAnswer k.page_size os (size + 2 ^ i - 1) p
      → let r = os_mmap_aligned k size (2 ^ i) os in (r.0 % 2 ^ i ≡ 0) × Maps os size r.0 r.1
  unfolding os_mmap_aligned
  cut large fits got ans =
      rw (large, got', end, stop)
        (
          up.aligned,
          record {
            not_wrapped = omega (arith, up.near, ans.ends, pos);
            given = omega (arith, up.above, ans.some_address);
            unused = λ a h. ans.fresh a (inside a h);
            exactly = λ a.
                trims os p (align_up p (2 ^ i)) size (sub64 (size + 2 ^ i) 1) a up.above
                  (omega (arith, up.near, pos, extra)) (rw (← extra) at (ans.fresh a));
            bytes =
                ap (λ t. u64 (t + size))
                  (trims-bytes (call os (mmap (sub64 (size + 2 ^ i) 1) p)) p (align_up p (2 ^ i)) _
                    _);
          },
        )
    where
      pos : 1 ≤ 2 ^ i
      pos = one-le-pow i 2 (omega arith)

      extra : sub64 (size + 2 ^ i) 1 ≡ size + 2 ^ i - 1
      extra = omega (arith, pos)

      got' : k.answer (sub64 (size + 2 ^ i) 1) ≡ some p
      got' = rw extra got

      up : IsRoundUp p (2 ^ i) (align_up p (2 ^ i))
      up = align_up-IsRoundUp i n p e (omega (arith, ans.ends))

      inside :
          (a : ℕ) → within (align_up p (2 ^ i)) size a ≡ true → within p (size + 2 ^ i - 1) a ≡ true
      inside a h = ground (arith, up.above, up.near, pos)

      end : u64 (align_up p (2 ^ i) + size) ≡ align_up p (2 ^ i) + size
      end = omega (arith, up.near, ans.ends, pos)

      stop : u64 (p + sub64 (size + 2 ^ i) 1) ≡ p + sub64 (size + 2 ^ i) 1
      stop = omega (arith, ans.ends, extra)

-- Where the size and the alignment, a power of two, add up to 2^64 at most, the page size is a power
-- of two, and mmap succeeds and answers as documented (`IsAnswer`): os_mmap_aligned returns a block
-- of that size and alignment; all else that it mapped is unmapped again, and mmap_bytes grows by
-- the size.
pub os_mmap_aligned-Maps :
    (k : Kernel) (size i j n p : ℕ) (os : Os)
    → k.page_size ≡ 2 ^ j
    → i + n ≡ 64
    → size + 2 ^ i ≤ 2 ^ 64
    → k.answer (asked k size (2 ^ i)) ≡ some p
    → IsAnswer k.page_size os (asked k size (2 ^ i)) p
    → let r = os_mmap_aligned k size (2 ^ i) os in (r.0 % 2 ^ i ≡ 0) × Maps os size r.0 r.1
os_mmap_aligned-Maps k size i j n p os pages e fits got ans =
    elim (Bool-cases (leb (2 ^ i) k.page_size)) [
      | inl small ↦ direct k size i j n p os e pages small (rw small at got) (rw small at ans)
      | inr large ↦ cut k size i j n p os e large fits (rw large at got) (rw large at ans)
    ]
