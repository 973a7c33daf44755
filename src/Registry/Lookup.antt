-- ===== src/Registry/Lookup.antt =====
-- segment_is_registered decides membership.
use malloc.Common.{
  ℕ, zero, suc, ◌+◌, ◌≤◌, ◌≡◌, ◌≢◌, ◌↔◌, refl, ap, ◌∙◌, ℕ_discrete, true, List, get_or, arith,
}
use mathlib.Core.Bool.{false≢true}
use malloc.Registry.{slot, probe, registered_loop, segment_is_registered}
use malloc.Registry.Probe.{At, IsRegistry, Contains, distance}

registered_loop-hit :
    (left i : ℕ) (table : List ℕ) (base : ℕ)
    → registered_loop left i table base ≡ true
    → i + left ≡ 256
    → Contains table base
unfolding registered_loop
registered_loop-hit zero i table base h e = absurd (false≢true h)
registered_loop-hit (suc left) i table base h e = elim (ℕ_discrete (probe table base i) base) [
  | yes same ↦ record { index = slot base i; index_lt = omega arith; holds = same }
  | no other ↦ registered_loop-hit left (i + 1) table base (ground arith) (omega arith)
]

-- What round `d` finds is found from any round before.
registered_loop-At :
    (left i : ℕ) (table : List ℕ) (base d : ℕ)
    → At table base d
    → base ≢ 0
    → i ≤ d
    → i + left ≡ 256
    → registered_loop left i table base ≡ true
unfolding registered_loop
registered_loop-At zero i table base d at pos le e = absurd (omega (arith, at.within))
registered_loop-At (suc left) i table base d at pos le e = elim (ℕ_discrete i d) [
  | yes last ↦ ground (arith, at.found, ap (probe table base) last)
  | no before ↦ ground (
    arith,
    at.filled i,
    registered_loop-At left (i + 1) table base d at pos (omega arith) (omega arith),
  )
]

-- In a well-formed table, segment_is_registered says exactly whether the address is in the set.
pub segment_is_registered_iff :
    {table : List ℕ} (base : ℕ)
    → IsRegistry table
    → base ≢ 0
    → (segment_is_registered table base ≡ true) ↔ Contains table base
unfolding segment_is_registered
segment_is_registered_iff {table} base v pos = (
  λ h. registered_loop-hit 256 0 table base h refl,
  λ c.
      let (d, within, at) = distance base c.index c.index_lt in
      let found : probe table base d ≡ base = ap (λ j. get_or table j 0) at ∙ c.holds in
      registered_loop-At 256 0 table base d (v.reached base d pos within found) pos (omega arith)
        refl,
)
