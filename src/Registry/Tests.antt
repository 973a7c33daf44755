-- ===== src/Registry/Tests.antt =====
-- Two segments with one hash in an empty registry, and a full registry.
use malloc.Common.{
  ℕ, zero, suc, ◌<◌, ◌≡◌, ◌↔◌, ◌∙◌, refl, sym, inl, true, false, List, replicate, get_or-replicate,
  get_or, arith,
}
use malloc.Registry.{
  slot, probe, segment_register, segment_unregister, segment_is_registered, register_loop,
  registered_loop, unregister_loop,
}
use malloc.Registry.Probe.{IsRegistry, Contains}
use malloc.Registry.Lookup.{segment_is_registered_iff}
use malloc.Registry.Register.{Registered, segment_register-Registered}
use malloc.Registry.Unregister.{unregister_hides}

program : Unit {0}
unfolding segment_register segment_unregister segment_is_registered register_loop registered_loop
    unregister_loop
program = tt

-- base addresses of two segments with hash 1
abbrev base_a : ℕ
base_a = 0x40_0000

abbrev base_b : ℕ
base_b = 0x4040_0000

abbrev empty : List ℕ
empty = replicate 256 0

empty_valid : IsRegistry empty
empty_valid = record {
  size = refl;
  reached = λ base d pos h e. absurd (pos (sym e ∙ get_or-replicate 256 (slot base d) 0));
}

empty_room : Contains empty 0
empty_room = record { index = 0; index_lt = omega arith; holds = refl }

abbrev one : List ℕ
one = segment_register empty base_a

one-Registered : Registered empty base_a one
one-Registered = segment_register-Registered base_a empty_valid (omega arith) empty_room

one_room : Contains one 0
unfolding program
one_room = record { index = 0; index_lt = omega arith; holds = refl }

abbrev two : List ℕ
two = segment_register one base_b

two-Registered : Registered one base_b two
two-Registered = segment_register-Registered base_b one-Registered.valid (omega arith) one_room

lookup_after_unregister : segment_is_registered (segment_unregister two base_a) base_b ≡ false
unfolding program
lookup_after_unregister = refl

segment_register-Registered_example : Registered empty base_a (segment_register empty base_a)
segment_register-Registered_example =
    segment_register-Registered base_a empty_valid (omega arith) empty_room

segment_is_registered_iff_example : (segment_is_registered two base_b ≡ true) ↔ Contains two base_b
segment_is_registered_iff_example =
    segment_is_registered_iff base_b two-Registered.valid (omega arith)

home_a : probe two base_a 0 ≡ base_a
unfolding program
home_a = refl

two-Contains : Contains two base_b
two-Contains = (two-Registered.members base_b (omega arith)).1 (inl refl)

unregister_hides_example :
    (segment_is_registered two base_b ≡ true)
    × (segment_is_registered (segment_unregister two base_a) base_b ≡ false)
    × Contains (segment_unregister two base_a) base_b
unregister_hides_example =
    unregister_hides base_a base_b two-Registered.valid home_a two-Contains (omega arith)
      (omega arith) refl

-- a registry with an address in every slot
abbrev crowded : List ℕ
crowded = replicate 256 base_a

crowded_entry : (n i : ℕ) → i < n → get_or (replicate n base_a) i 0 ≡ base_a
crowded_entry zero i h = elim h [ ]
crowded_entry (suc n) zero h = refl
crowded_entry (suc n) (suc i) h = crowded_entry n i (omega arith)

no_room : ¬ Contains crowded 0
no_room c = absurd (omega (arith, c.holds, crowded_entry 256 c.index c.index_lt))
