-- ===== src/Page/Safety.antt =====
-- Slots that are held at the same time.
use malloc.Common.{ℕ, ◌+◌, ◌*◌, ◌%◌, ◌≤◌, ◌≡◌, ◌≢◌, ◌⊎◌, ◌∙◌, ap, sym, List, arith}
use native.Mathlib.Nat.{
  mul-le-mul_right, dvd_of_mod-eq-zero, mod-eq-zero_of_dvd, dvd-add, dvd-mul_left_of_dvd,
}
use malloc.Memory.{Mem}
use malloc.Memory.Chain.{count}
use malloc.Page.{Page, page_start}
use malloc.Page.Invariant.{Holds, IsSlot, slots_at-IsSlot, slots_apart, once}

-- A held slot lies in the page, and on a multiple of 16 if the page does.
pub record Placed (p : Page) (a : ℕ) : Type 0 where
  pub above : page_start p ≤ a
  pub below : a + p.slot_size ≤ page_start p + 0x1_0000
  pub aligned : page_start p % 16 ≡ 0 → a % 16 ≡ 0

module _ {p : Page} {m : Mem} {live : List ℕ} (h : Holds p m live) where
  slot_of : (a : ℕ) → count a live ≢ 0 → IsSlot (page_start p) p.slot_size h.carved a
  slot_of a held =
      slots_at-IsSlot (page_start p) p.slot_size h.carved a
        (λ e. held (omega (arith, h.page.owned a, e)))

  slot-Placed : (a : ℕ) → IsSlot (page_start p) p.slot_size h.carved a → Placed p a
  slot-Placed a s = record {
    above = omega (arith, s.address);
    below = omega (
      arith,
      s.address,
      mul-le-mul_right p.slot_size s.index_lt,
      mul-le-mul_right p.slot_size h.page.room,
      h.page.shaped.inside,
    );
    aligned = λ e.
        ap (λ t. t % 16) s.address
        ∙ mod-eq-zero_of_dvd 16 (
            dvd-add 16 (dvd_of_mod-eq-zero 16 e)
              (dvd-mul_left_of_dvd 16 (dvd_of_mod-eq-zero 16 h.page.shaped.slot_aligned) s.index));
  }

-- In a valid page every held slot is held once, lies in the page on a 16-byte boundary, and two
-- different ones do not overlap.
pub held_slots-apart :
    {p : Page} {m : Mem} {live : List ℕ} (a b : ℕ)
    → Holds p m live
    → count a live ≢ 0
    → count b live ≢ 0
    → (count a live ≡ 1) × Placed p a × (a ≢ b → (a + p.slot_size ≤ b) ⊎ (b + p.slot_size ≤ a))
held_slots-apart {p} a b h ha hb =
    let s = slot_of h a ha in
    let t = slot_of h b hb in
    (
      omega (arith, once h.page a, ha),
      slot-Placed h a s,
      λ ne. omega (
        arith,
        s.address,
        t.address,
        slots_apart (page_start p) p.slot_size s.index t.index
            (λ e. ne (s.address ∙ ap (λ i. page_start p + i * p.slot_size) e ∙ sym t.address)),
      ),
    )
