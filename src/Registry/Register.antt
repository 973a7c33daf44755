-- ===== src/Registry/Register.antt =====
-- segment_register adds an address to the set, if there is an empty slot.
use malloc.Common.{
  ℕ, zero, suc, ◌+◌, ◌<◌, ◌≡◌, ◌≢◌, ◌↔◌, ◌⊎◌, inl, inr, refl, sym, ap, subst, ◌∙◌, ℕ_discrete, List,
  get_or, set, length-set, get_or-set_self, get_or-set_ne, arith,
}
use malloc.Registry.{slot, probe, register_loop, segment_register}
use malloc.Registry.Probe.{At, IsRegistry, Contains, distance, slot-injective}

-- How the loop ends: at the address, at the first empty slot, or after all slots.
data Outcome (table : List ℕ) (base : ℕ) (result : List ℕ) : Type 0 where
  present : (d : ℕ) → At table base d → result ≡ table → Outcome table base result
  placed :
      (d : ℕ)
      → d < 256
      → probe table base d ≡ 0
      → ((e : ℕ) → e < d → probe table base e ≢ 0)
      → result ≡ set table (slot base d) base
      → Outcome table base result
  full : ((e : ℕ) → e < 256 → probe table base e ≢ 0) → result ≡ table → Outcome table base result

one_more : {P : ℕ → Type 0} (i : ℕ) → ((e : ℕ) → e < i → P e) → P i → (e : ℕ) → e < i + 1 → P e
one_more {P} i below here e h = elim (ℕ_discrete i e) [
  | yes same ↦ subst P same here
  | no other ↦ below e (omega arith)
]

register_loop-Outcome :
    (left i : ℕ) (table : List ℕ) (base : ℕ)
    → i + left ≡ 256
    → ((e : ℕ) → e < i → probe table base e ≢ 0)
    → Outcome table base (register_loop left i table base)
unfolding register_loop
register_loop-Outcome zero i table base e below = full (λ j h. below j (omega arith)) refl
register_loop-Outcome (suc left) i table base e below = elim (ℕ_discrete (probe table base i) 0) [
  | yes empty ↦ placed i (omega arith) empty below (ground arith)
  | no filled ↦ elim (ℕ_discrete (probe table base i) base) [
    | yes same ↦
        present i (record { within = omega arith; found = same; filled = below }) (ground arith)
    | no other ↦
        subst (Outcome table base) (ground arith)
          (register_loop-Outcome left (i + 1) table base (omega arith) (one_more i below filled))
  ]
]

-- What registering an address does to the set.
pub record Registered (table : List ℕ) (base : ℕ) (result : List ℕ) : Type 0 where
  pub valid : IsRegistry result
  pub members : (c : ℕ) → c ≢ 0 → Contains result c ↔ ((c ≡ base) ⊎ Contains table c)

module _ {table : List ℕ} {base : ℕ} (v : IsRegistry table) (pos : base ≢ 0) (s : ℕ)
    (lt : s < 256) where
  get-written : get_or (set table s base) s 0 ≡ base
  get-written = get_or-set_self table s base 0 (omega (arith, v.size))

  filled-kept : (j : ℕ) → get_or table j 0 ≢ 0 → get_or (set table s base) j 0 ≢ 0
  filled-kept j h = elim (ℕ_discrete s j) [
    | yes same ↦ λ e. pos (sym get-written ∙ ap (λ t. get_or (set table s base) t 0) same ∙ e)
    | no other ↦ λ e. h (sym (get_or-set_ne table s j base 0 other) ∙ e)
  ]

  -- the empty slot is the first on the path of `base`
  module _ (d : ℕ) (within : d < 256) (here : slot base d ≡ s)
      (before : (e : ℕ) → e < d → probe table base e ≢ 0) where
    reached-written :
        (c e : ℕ)
        → c ≢ 0
        → e < 256
        → get_or (set table s base) (slot c e) 0 ≡ c
        → At (set table s base) c e
    reached-written c e cpos h found = elim (ℕ_discrete s (slot c e)) [
      | yes same ↦
          let is_base : c ≡ base =
            sym found ∙ ap (λ t. get_or (set table s base) t 0) (sym same) ∙ get-written in
          let round : e ≡ d =
            slot-injective base e d h within
              (ap (λ b. slot b e) (sym is_base) ∙ sym same ∙ sym here) in
          record {
            within = h;
            found = found;
            filled = λ i lt'. filled-kept (slot c i) (
                subst (λ b. probe table b i ≢ 0) (sym is_base)
                  (before i (omega (arith, round, lt'))));
          }
      | no other ↦ record {
        within = h;
        found = found;
        filled = λ i lt'. filled-kept (slot c i) (
            (v.reached c e cpos h
                (sym (get_or-set_ne table s (slot c e) base 0 other) ∙ found)).filled
              i lt');
      }
    ]

    written-Registered : get_or table s 0 ≡ 0 → Registered table base (set table s base)
    written-Registered empty = record {
      valid = record { size = length-set table s base ∙ v.size; reached = reached-written };
      members = λ c cpos. (
        λ k. elim (ℕ_discrete s k.index) [
          | yes same ↦
              inl (sym k.holds ∙ ap (λ t. get_or (set table s base) t 0) (sym same) ∙ get-written)
          | no other ↦ inr (record {
            index = k.index;
            index_lt = k.index_lt;
            holds = sym (get_or-set_ne table s k.index base 0 other) ∙ k.holds;
          })
        ],
        λ k. elim k [
          | inl same ↦ record { index = s; index_lt = lt; holds = get-written ∙ sym same }
          | inr old ↦ kept c cpos old
        ],
      );
    }
      where
        kept : (c : ℕ) → c ≢ 0 → Contains table c → Contains (set table s base) c
        kept c cpos k = record {
          index = k.index;
          index_lt = k.index_lt;
          holds =
              get_or-set_ne table s k.index base 0
                (λ e. cpos (sym k.holds ∙ ap (λ t. get_or table t 0) (sym e) ∙ empty))
              ∙ k.holds;
        }

present-Registered :
    {table : List ℕ} {base : ℕ} (d : ℕ)
    → IsRegistry table
    → At table base d
    → Registered table base table
present-Registered {base} d v at = record {
  valid = v;
  members = λ c pos. (
    λ k. inr k,
    λ k. elim k [
      | inl same ↦ record {
        index = slot base d;
        index_lt = omega arith;
        holds = at.found ∙ sym same;
      }
      | inr old ↦ old
    ],
  );
}

-- Registering an address in a well-formed table that has an empty slot adds exactly that address to
-- the set, and leaves the table well formed.
pub segment_register-Registered :
    {table : List ℕ} (base : ℕ)
    → IsRegistry table
    → base ≢ 0
    → Contains table 0
    → Registered table base (segment_register table base)
unfolding segment_register
segment_register-Registered {table} base v pos room =
    finish (register_loop-Outcome 256 0 table base refl (λ e h. absurd (omega arith)))
  where
    finish : {r : List ℕ} → Outcome table base r → Registered table base r
    finish (present d at e) = subst (Registered table base) (sym e) (present-Registered d v at)
    finish (placed d h empty before e) =
        subst (Registered table base) (sym e)
          (written-Registered v pos (slot base d) (omega arith) d h refl before empty)
    finish (full all e) =
        let (d, within, at) = distance base room.index room.index_lt in
        absurd (all d within (ap (λ j. get_or table j 0) at ∙ room.holds))

-- With no empty slot a new address is dropped without notice: the table stays as it was.
pub segment_register_full :
    {table : List ℕ} (base : ℕ)
    → base ≢ 0
    → ¬ Contains table 0
    → segment_register table base ≡ table
unfolding segment_register
segment_register_full {table} base pos full_table =
    finish (register_loop-Outcome 256 0 table base refl (λ e h. absurd (omega arith)))
  where
    finish : {r : List ℕ} → Outcome table base r → r ≡ table
    finish (present d at e) = e
    finish (placed d h empty before e) =
        absurd (full_table (record { index = slot base d; index_lt = omega arith; holds = empty }))
    finish (full all e) = e
