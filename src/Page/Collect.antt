-- ===== src/Page/Collect.antt =====
-- page_collect_remote: the remote list goes in front of the local one.
use malloc.Common.{
  ℕ, zero, suc, ◌+◌, ◌^◌, ◌≤◌, ◌<◌, ◌≡◌, ◌≢◌, refl, sym, ne→==, ◌∙◌, subst, ap, some, sub16, List,
  [], ◌∷◌, ◌++◌, arith, length, length-append, u16, Returns,
}
use native.Mathlib.Nat.{le_trans}
use malloc.Memory.{Mem, null, write}
use malloc.Memory.Chain.{Chain, Chain-write, count, count-append}
use malloc.Atomic.{tagged_make, tagged_ptr_tag, treiber_collect}
use malloc.Atomic.Tagged.{tagged_make_parts}
use malloc.Page.{Page, page_start, walk, page_collect_remote}
use malloc.Page.Kept.{IsKept, IsSamePage-refl, IsOutside, not_outside}
use malloc.Page.Invariant.{IsPage, slots_at-le, capacity_small}

abbrev last : ℕ → List ℕ → ℕ
last x [] = x
last x (y ∷ ys) = last y ys

last-mem : (x : ℕ) (xs : List ℕ) → count (last x xs) (x ∷ xs) ≢ 0
last-mem x [] = ground arith
last-mem x (y ∷ ys) = ground (arith, last-mem y ys)

-- The loop counts the nodes and stops at the last.
walk-last :
    (fuel : ℕ) (m : Mem) (x c : ℕ) (xs : List ℕ)
    → Chain m (m x) xs
    → length xs < fuel
    → c + suc (length xs) < 2 ^ 16
    → walk fuel m x c ≡ some (c + suc (length xs), last x xs)
unfolding walk
walk-last zero m x c xs h f b = absurd (omega arith)
walk-last (suc fuel) m x c [] h f b = ground arith
walk-last (suc fuel) m x c (y ∷ ys) h f b =
    ground (arith, walk-last fuel m y (c + 1) ys h.2 (omega arith) (omega arith))

-- Linking the last node of a list to a second list, with no node in common, appends it.
Chain-link :
    (m : Mem) (x q : ℕ) (xs ys : List ℕ)
    → x ≢ null
    → Chain m (m x) xs
    → ((a : ℕ) → count a (x ∷ xs) + count a ys ≤ 1)
    → Chain m q ys
    → Chain (write m (last x xs) q) x (x ∷ xs ++ ys)
Chain-link m x q [] ys h c once d = (refl, h, subst (λ p. Chain (write m x q) p ys) here kept)
  where
    here : q ≡ write m x q x
    here = ground arith

    kept : Chain (write m x q) q ys
    kept = Chain-write m x q q ys (ground (arith, once x)) d
Chain-link m x q (y ∷ xs) ys h c once d = (
  refl,
  h,
  subst (λ p. Chain (write m (last y xs) q) p (y ∷ xs ++ ys)) there
      (Chain-link m y q xs ys c.1 c.2 (λ a. ground (arith, once a)) d),
)
  where
    there : y ≡ write m (last y xs) q x
    there = ground (arith, c.0, last-mem y xs, once (last y xs))

last-ne-null : (m : Mem) (x : ℕ) (xs : List ℕ) → x ≢ null → Chain m (m x) xs → last x xs ≢ null
last-ne-null m x [] h c = h
last-ne-null m x (y ∷ ys) h c = last-ne-null m y ys c.1 c.2

-- The remote list in front of the local one, and nothing else of the page changed.
pub record Collected (p : Page) (m : Mem) (carved : ℕ) (live local remote : List ℕ) (r : Page × Mem)
    : Type 0 where
  pub page : IsPage r.0 r.1 carved live (remote ++ local) []
  pub same_end : r.0.bump_end ≡ p.bump_end
  pub same_size : r.0.slot_size ≡ p.slot_size
  pub same_capacity : r.0.capacity ≡ p.capacity
  pub same_start : page_start r.0 ≡ page_start p
  pub kept : IsKept p m r.0 r.1

module _ {p : Page} {m : Mem} {carved : ℕ} {live local : List ℕ} where
  collect-empty :
      IsPage p m carved live local []
      → Returns (page_collect_remote p m) (Collected p m carved live local [])
  unfolding page_collect_remote treiber_collect
  collect-empty v = (
    (p, m),
    rw v.remote_chain,
    record {
      page = v;
      same_end = refl;
      same_size = refl;
      same_capacity = refl;
      same_start = refl;
      kept = record { same = IsSamePage-refl p; outside = λ a o. refl };
    },
  )

  collect-some :
      (x : ℕ) (xs : List ℕ)
      → IsPage p m carved live local (x ∷ xs)
      → Returns (page_collect_remote p m) (Collected p m carved live local (x ∷ xs))
  unfolding page_collect_remote treiber_collect
  collect-some x xs v = (
    (
      record p {
        local_free = x;
        local_free_count = u16 (p.local_free_count + suc (length xs));
        remote_free = tagged_make null (tagged_ptr_tag p.remote_free + 1);
        remote_free_count = sub16 p.remote_free_count (suc (length xs));
      },
      write m (last x xs) p.local_free,
    ),
    ran,
    record {
      page = record {
        shaped = v.shaped;
        bumped = v.bumped;
        room = v.room;
        local_chain = linked;
        remote_chain = (tagged_make_parts null (tagged_ptr_tag p.remote_free + 1) (omega arith)).0;
        used = v.used;
        local_count =
            omega (arith, length-append xs local, few, v.accounted, v.room, v.local_count);
        remote_count = omega (arith, v.remote_count, few, v.accounted, v.room);
        accounted = omega (arith, length-append xs local, v.accounted);
        owned = λ a. omega (arith, v.owned a, count-append (x ∷ xs) local a);
      };
      same_end = refl;
      same_size = refl;
      same_capacity = refl;
      same_start = refl;
      kept = record {
        same = ground arith;
        outside = λ a o. rw (ne→== (last x xs) a (elsewhere a o)) refl;
      };
    },
  )
    where
      elsewhere : (a : ℕ) → IsOutside p a → last x xs ≢ a
      elsewhere a o e =
          last-mem x xs
            (subst (λ t. count t (x ∷ xs) ≡ 0) (sym e) (omega (arith, not_outside v a o)))

      few : p.capacity ≤ 4096
      few = capacity_small v.shaped

      once : (a : ℕ) → count a (x ∷ xs) + count a local ≤ 1
      once a = omega (
        arith,
        v.owned a,
        slots_at-le (page_start p) p.slot_size carved a
            (le_trans (omega arith) v.shaped.slot_small),
      )

      linked : Chain (write m (last x xs) p.local_free) x (x ∷ xs ++ local)
      linked =
          Chain-link m x p.local_free xs local v.remote_chain.1 v.remote_chain.2 once v.local_chain

      walked : walk p.capacity m x 0 ≡ some (suc (length xs), last x xs)
      walked =
          walk-last p.capacity m x 0 xs v.remote_chain.2 (omega (arith, v.accounted, v.room))
            (omega (arith, few, v.accounted, v.room))
          ∙ ap (λ n. some (n, last x xs)) (omega arith)

      ran :
          page_collect_remote p m
          ≡ some (
            record p {
              local_free = x;
              local_free_count = u16 (p.local_free_count + suc (length xs));
              remote_free = tagged_make null (tagged_ptr_tag p.remote_free + 1);
              remote_free_count = sub16 p.remote_free_count (suc (length xs));
            },
            write m (last x xs) p.local_free,
          )
      ran = ground (arith, walked, last-ne-null m x xs v.remote_chain.1 v.remote_chain.2)

-- page_collect_remote ends within its fuel, and moves the whole remote list in front of the
-- local one.
pub page_collect_remote-Collected :
    {p : Page} {m : Mem} {carved : ℕ} {live local : List ℕ} (remote : List ℕ)
    → IsPage p m carved live local remote
    → Returns (page_collect_remote p m) (Collected p m carved live local remote)
page_collect_remote-Collected [] v = collect-empty v
page_collect_remote-Collected (x ∷ xs) v = collect-some x xs v
