-- ===== src/Init/Once.antt =====
-- malloc_init of src/init.c sets the allocator up once, before any thread leaves it.
use malloc.Common.{
  ℕ, ◌≡◌, refl, sym, ap, ◌∙◌, Bool, true, false, ◌==◌, arith, ==_iff, Bool-cases, inl, inr,
}
use malloc.Init.{
  Global, Place, calling, setting_up, spinning, returned, go, Step, won, lost, spin, leave, finish,
  Run, start, then_step, set_up,
}

abbrev is_setting_up : Place → Bool
is_setting_up calling = false
is_setting_up setting_up = true
is_setting_up spinning = false
is_setting_up returned = false

abbrev is_returned : Place → Bool
is_returned calling = false
is_returned setting_up = false
is_returned spinning = false
is_returned returned = true

-- the state after the compare-and-swap that is won
abbrev claimed : Global → Global
claimed g = record g { initialized = 1 }

-- The three phases of a run from `g`.
data Phase (g : Global) : Global → (ℕ → Place) → Type 0 where
  before :
      {h : Global} {at : ℕ → Place}
      → h ≡ g
      → ((j : ℕ) → is_setting_up (at j) ≡ false)
      → ((j : ℕ) → is_returned (at j) ≡ false)
      → Phase g h at
  during :
      {h : Global} {at : ℕ → Place} (w : ℕ)
      → h ≡ claimed g
      → ((j : ℕ) → is_setting_up (at j) ≡ (w == j))
      → ((j : ℕ) → is_returned (at j) ≡ false)
      → Phase g h at
  after :
      {h : Global} {at : ℕ → Place}
      → h ≡ set_up g
      → ((j : ℕ) → is_setting_up (at j) ≡ false)
      → Phase g h at

-- A thread that moves from one place to another of the same kind changes nothing for a test.
moved :
    (f : Place → Bool) (at : ℕ → Place) (i : ℕ) (to : Place)
    → f to ≡ f (at i)
    → (j : ℕ) → f (go at i to j) ≡ f (at j)
moved f at i to e j = elim (Bool-cases (i == j)) [
  | inl same ↦ rw same (e ∙ ap (λ k. f (at k)) ((==_iff i j).0 same))
  | inr other ↦ rw other refl
]

set_up-initialized : (g : Global) → (set_up g).initialized ≡ 2
unfolding set_up
set_up-initialized g = refl

Step-Phase :
    (g : Global) {h k : Global} {at to : ℕ → Place}
    → g.initialized ≡ 0
    → Phase g h at
    → Step h at k to
    → Phase g k to
unfolding set_up
Step-Phase g zero_g (before e none_up none_back) (won {places} i here z) =
    during i (ap claimed e)
      (λ j. elim (Bool-cases (i == j)) [
        | inl same ↦ rw same refl
        | inr other ↦ rw other (none_up j)
      ])
      (λ j. moved is_returned places i setting_up (sym (ap is_returned here)) j ∙ none_back j)
Step-Phase g zero_g (before e none_up none_back) (lost i here nz) =
    absurd (nz (ap (λ h. h.initialized) e ∙ zero_g))
Step-Phase g zero_g (before e none_up none_back) (spin i here n2) = before e none_up none_back
Step-Phase g zero_g (before e none_up none_back) (leave i here two) =
    absurd (omega (arith, two, ap (λ h. h.initialized) e, zero_g))
Step-Phase g zero_g (before e none_up none_back) (finish i here) =
    absurd (ground (arith, none_up i, ap is_setting_up here))
Step-Phase g zero_g (during w e up none_back) (won i here z) =
    absurd (omega (arith, z, ap (λ h. h.initialized) e))
Step-Phase g zero_g (during w e up none_back) (lost {places} i here nz) =
    during w e (λ j. moved is_setting_up places i spinning (sym (ap is_setting_up here)) j ∙ up j)
      (λ j. moved is_returned places i spinning (sym (ap is_returned here)) j ∙ none_back j)
Step-Phase g zero_g (during w e up none_back) (spin i here n2) = during w e up none_back
Step-Phase g zero_g (during w e up none_back) (leave i here two) =
    absurd (omega (arith, two, ap (λ h. h.initialized) e))
Step-Phase g zero_g (during w e up none_back) (finish {places} i here) = after (ap set_up e) (λ j.
    elim (Bool-cases (i == j)) [
      | inl same ↦ rw same refl
      | inr other ↦ rw other (up j ∙ ground (arith, other, ap is_setting_up here, up i))
    ])
Step-Phase g zero_g (after e none_up) (won i here z) =
    absurd (omega (arith, z, ap (λ h. h.initialized) e))
Step-Phase g zero_g (after e none_up) (lost {places} i here nz) =
    after e (λ j. moved is_setting_up places i spinning (sym (ap is_setting_up here)) j ∙ none_up j)
Step-Phase g zero_g (after e none_up) (spin i here n2) = after e none_up
Step-Phase g zero_g (after e none_up) (leave {places} i here two) =
    after e (λ j. moved is_setting_up places i returned (sym (ap is_setting_up here)) j ∙ none_up j)
Step-Phase g zero_g (after e none_up) (finish i here) =
    absurd (ground (arith, none_up i, ap is_setting_up here))

Run-Phase :
    (g : Global) {places at : ℕ → Place} {h : Global}
    → g.initialized ≡ 0
    → ((j : ℕ) → places j ≡ calling)
    → Run g places h at
    → Phase g h at
Run-Phase g z all start = before refl (λ j. ap is_setting_up (all j)) (λ j. ap is_returned (all j))
Run-Phase g z all (then_step run step) = Step-Phase g z (Run-Phase g z all run) step

one_setter :
    (g : Global) {h : Global} {at : ℕ → Place} (i j : ℕ)
    → Phase g h at
    → is_setting_up (at i) ≡ true
    → is_setting_up (at j) ≡ true
    → i ≡ j
one_setter g i j (before e none_up none_back) a b = absurd (ground (arith, none_up i, a))
one_setter g i j (during w e up none_back) a b =
    sym ((==_iff w i).0 (sym (up i) ∙ a)) ∙ (==_iff w j).0 (sym (up j) ∙ b)
one_setter g i j (after e none_up) a b = absurd (ground (arith, none_up i, a))

back_ready :
    (g : Global) {h : Global} {at : ℕ → Place} (i : ℕ)
    → Phase g h at
    → is_returned (at i) ≡ true
    → h ≡ set_up g
back_ready g i (before e none_up none_back) a = absurd (ground (arith, none_back i, a))
back_ready g i (during w e up none_back) a = absurd (ground (arith, none_back i, a))
back_ready g i (after e none_up) a = e

-- However the steps of any number of threads that call malloc_init interleave, at most one of them is
-- in the set-up at a time, and when a thread has returned, the allocator has been set up, once.
pub malloc_init_once :
    (g h : Global) (places at : ℕ → Place)
    → g.initialized ≡ 0
    → ((j : ℕ) → places j ≡ calling)
    → Run g places h at
    → ((i j : ℕ) → at i ≡ setting_up → at j ≡ setting_up → i ≡ j)
      × ((i : ℕ) → at i ≡ returned → h ≡ set_up g)
malloc_init_once g h places at z all run = (
  λ i j a b. one_setter g i j (Run-Phase g z all run) (ap is_setting_up a) (ap is_setting_up b),
  λ i a. back_ready g i (Run-Phase g z all run) (ap is_returned a),
)
