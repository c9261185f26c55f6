-- ===== src/Gdt.antt =====
-- The global descriptor table, arch/x86_64/gdt/gdt.c. The task state, its stack and the load of the
-- table are the processor's: their addresses are parameters.
pub mod Gates
mod Tests
use destin_x.Prelude.{
  ℕ, zero, suc, ◌+◌, ◌-◌, ◌*◌, ◌/◌, ◌%◌, ◌^◌, ◌≤◌, ◌<◌, ◌≡◌, ◌≢◌, ◌↔◌, ◌⊎◌, refl, sym, ap, ◌∙◌, inl,
  inr, Bool, true, false, not, ◌&&◌, ◌||◌, Option, none, some, List, [], ◌∷◌, ◌++◌, map, arith, ltb,
  leb, ◌==◌, if◌then◌else◌, update, add64, sub64, Bool-cases, Option-cases, ==_iff, ==_self, ltb→lt,
  lt→ltb, length, get_elem?, length-append, bit_and, bit_or, bit_xor, has, ◌∈◌, ◌∉◌, has-append,
}

pub record GdtEntry : Type 0 where
  pub limit_low : ℕ
  pub base_low : ℕ
  pub base_mid : ℕ
  pub access : ℕ
  pub limit_high_flags : ℕ
  pub base_high : ℕ

-- What `setGDTGate` stores; `base` and `limit` are 32-bit numbers.
unfoldable pub descriptor : (base limit access flags : ℕ) → GdtEntry
descriptor base limit access flags = record {
  limit_low = limit % 2 ^ 16;
  base_low = base % 2 ^ 16;
  base_mid = base / 2 ^ 16 % 2 ^ 8;
  access = access;
  limit_high_flags = bit_or (bit_and (limit / 2 ^ 16) 0x0F) (bit_and flags 0xF0);
  base_high = base / 2 ^ 24 % 2 ^ 8;
}

unfoldable pub set_gdt_gate : (vector base limit access flags : ℕ) → (ℕ → GdtEntry) → ℕ → GdtEntry
set_gdt_gate vector base limit access flags e = update e vector (descriptor base limit access flags)

-- `base_upper` and `reserved` of a `tss_entry_struct` lie in the next place of the table.
abbrev pub upper : ℕ → GdtEntry
upper base_upper = record {
  limit_low = base_upper % 2 ^ 16;
  base_low = base_upper / 2 ^ 16;
  base_mid = 0;
  access = 0;
  limit_high_flags = 0;
  base_high = 0;
}

unfoldable pub set_tss_gate : (vector base limit : ℕ) → (ℕ → GdtEntry) → ℕ → GdtEntry
set_tss_gate vector base limit e =
    update (set_gdt_gate vector (base % 2 ^ 32) limit 0x89 0x40 e) (vector + 1)
      (upper (base / 2 ^ 32))

-- `tss` is the address of the task state and `size` the number of its bytes.
unfoldable pub init_gdt : (tss size : ℕ) → (ℕ → GdtEntry) → ℕ → GdtEntry
init_gdt tss size e =
    let e0 = set_gdt_gate 0 0 0 0 0 e in
    let e1 = set_gdt_gate 1 0 0xFFFFFFFF 0x9A 0x20 e0 in
    let e2 = set_gdt_gate 2 0 0xFFFFFFFF 0x92 0x00 e1 in
    let e3 = set_gdt_gate 3 0 0xFFFFFFFF 0xF2 0x00 e2 in
    let e4 = set_gdt_gate 4 0 0xFFFFFFFF 0xFA 0x20 e3 in set_tss_gate 5 tss (size - 1) e4
