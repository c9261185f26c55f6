-- ===== src/Gdt/Gates.antt =====
-- The descriptors that `init_GDT` leaves.
use destin_x.Prelude.{ℕ, ◌+◌, ◌-◌, ◌*◌, ◌/◌, ◌%◌, ◌^◌, ◌<◌, ◌≡◌, refl, arith}
use destin_x.Gdt.{GdtEntry, descriptor, set_gdt_gate, set_tss_gate, init_gdt}

-- The base address in a descriptor, and in the two places of a task state.
abbrev pub base_of : GdtEntry → ℕ
base_of g = g.base_low + g.base_mid * 2 ^ 16 + g.base_high * 2 ^ 24

abbrev pub tss_base : (ℕ → GdtEntry) → ℕ → ℕ
tss_base e v = base_of (e v) + ((e (v + 1)).limit_low + (e (v + 1)).base_low * 2 ^ 16) * 2 ^ 32

-- The limit in a descriptor: 20 bits.
abbrev pub limit_of : GdtEntry → ℕ
limit_of g = g.limit_low + g.limit_high_flags % 16 * 2 ^ 16

-- What `init_GDT` leaves in the places of the task state: its 64-bit address, its last byte as the limit when that is
-- below 2^16, and the type of a task state that is present and free.
pub init_gdt_lem :
    (tss size : ℕ) (e : ℕ → GdtEntry)
    → tss < 2 ^ 64
    → 0 < size
    → size < 2 ^ 16
    → (tss_base (init_gdt tss size e) 5 ≡ tss)
      × (limit_of (init_gdt tss size e 5) ≡ size - 1)
      × ((init_gdt tss size e 5).access ≡ 0x89)
unfolding init_gdt set_gdt_gate set_tss_gate descriptor
init_gdt_lem tss size e word some_bytes small =
    let none_above : (size - 1) / 2 ^ 16 ≡ 0 = omega (arith, small) in
    (omega (arith, word), rw none_above (omega (arith, small, some_bytes)), refl)
