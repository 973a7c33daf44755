-- ===== src/Registry/Unregister.antt =====
-- segment_unregister clears the slot of an address, which can cut the probe path of another one.
use malloc.Common.{
  ℕ, ◌+◌, ◌%◌, ◌≡◌, ◌≢◌, ap, ◌∙◌, true, false, List, get_or, set, get_or-set_self, get_or-set_ne,
  sym, arith,
}
use malloc.Registry.{
  seg_hash, slot, probe, unregister_loop, segment_unregister, registered_loop,
  segment_is_registered,
}
use malloc.Registry.Probe.{IsRegistry, Contains}
use malloc.Registry.Lookup.{segment_is_registered_iff}

unregister-home :
    (table : List ℕ) (base : ℕ)
    → probe table base 0 ≡ base
    → segment_unregister table base ≡ set table (slot base 0) 0
unfolding segment_unregister unregister_loop
unregister-home table base home = ground (arith, home)

-- An empty home slot ends the search at once.
home_empty :
    (table : List ℕ) (c : ℕ) → c ≢ 0 → probe table c 0 ≡ 0 → segment_is_registered table c ≡ false
unfolding segment_is_registered registered_loop
home_empty table c pos empty = ground (arith, empty)

-- In a well-formed registry, removing a segment whose address sits in its home slot hides every other
-- segment of the registry with the same hash: it is found before, and not found after although its
-- address is still in the table.
pub unregister_hides :
    {table : List ℕ} (base c : ℕ)
    → IsRegistry table
    → probe table base 0 ≡ base
    → Contains table c
    → c ≢ 0
    → c ≢ base
    → seg_hash c ≡ seg_hash base
    → (segment_is_registered table c ≡ true)
      × (segment_is_registered (segment_unregister table base) c ≡ false)
      × Contains (segment_unregister table base) c
unregister_hides {table} base c v home member pos other same = (
  (segment_is_registered_iff c v pos).1 member,
  rw (unregister-home table base home) (home_empty _ c pos cleared),
  rw (unregister-home table base home) (record {
    index = member.index;
    index_lt = member.index_lt;
    holds = get_or-set_ne table (slot base 0) member.index 0 0 elsewhere ∙ member.holds;
  }),
)
  where
    elsewhere : slot base 0 ≢ member.index
    elsewhere e = other (sym member.holds ∙ sym (ap (λ j. get_or table j 0) e) ∙ home)

    cleared : probe (set table (slot base 0) 0) c 0 ≡ 0
    cleared =
        ap (λ h. get_or (set table (slot base 0) 0) ((h + 0) % 256) 0) same
        ∙ get_or-set_self table (slot base 0) 0 0 (omega (arith, v.size))
