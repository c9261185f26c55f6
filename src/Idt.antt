-- ===== src/Idt.antt =====
-- The interrupt descriptor table and the dispatch of interrupts, arch/x86_64/idt/idt.c. The stubs, which are
-- assembler code, are parameters; so is the load of the table into the processor.
pub mod Gates
mod Tests
use destin_x.Prelude.{
  ℕ, zero, suc, ◌+◌, ◌-◌, ◌*◌, ◌/◌, ◌%◌, ◌^◌, ◌≤◌, ◌<◌, ◌≡◌, ◌≢◌, ◌↔◌, ◌⊎◌, refl, sym, ap, ◌∙◌, inl,
  inr, Bool, true, false, not, ◌&&◌, ◌||◌, Option, none, some, List, [], ◌∷◌, ◌++◌, map, arith, ltb,
  leb, ◌==◌, if◌then◌else◌, update, add64, sub64, Bool-cases, Option-cases, ==_iff, ==_self, ltb→lt,
  lt→ltb, length, get_elem?, length-append, bit_and, bit_or, bit_xor, has, ◌∈◌, ◌∉◌, has-append,
}

pub record IdtEntry : Type 0 where
  pub offset_1 : ℕ
  pub selector : ℕ
  pub ist : ℕ
  pub flags : ℕ
  pub offset_2 : ℕ
  pub offset_3 : ℕ
  pub reserved : ℕ

-- `idt_entries`, by the vector.
abbrev pub Entries : Type 0
Entries = ℕ → IdtEntry

-- What `set_idt_gate` stores.
unfoldable pub gate : (handler flags ist : ℕ) → IdtEntry
gate handler flags ist = record {
  offset_1 = handler % 2 ^ 16;
  selector = 8;
  ist = ist % 8;
  flags = flags;
  offset_2 = handler / 2 ^ 16 % 2 ^ 16;
  offset_3 = handler / 2 ^ 32 % 2 ^ 32;
  reserved = 0;
}

unfoldable pub set_idt_gate : (vector handler flags ist : ℕ) → Entries → Entries
set_idt_gate vector handler flags ist e = update e vector (gate handler flags ist)

-- `for (; rounds > 0; vector++) setIDTGate(vector, handlers[vector], flags, 0)`
unfoldable pub gate_loop :
    (rounds vector : ℕ) → (handlers : ℕ → ℕ) → (flags : ℕ) → Entries → Entries
gate_loop zero vector handlers flags e = e
gate_loop (suc rounds) vector handlers flags e =
    gate_loop rounds (vector + 1) handlers flags (set_idt_gate vector (handlers vector) flags 0 e)

-- The stubs of the assembler code.
pub record Stubs : Type 0 where
  pub isr_stub_table : ℕ → ℕ
  pub irq_stub_table : ℕ → ℕ
  pub yield_handler : ℕ
  pub isr255 : ℕ

unfoldable pub init_idt : Stubs → Entries → Entries
init_idt s e =
    let e0 = gate_loop 256 0 (λ vector. 0) 0 e in
    let e1 = gate_loop 8 0 s.isr_stub_table 0x8E e0 in
    let e2 = set_idt_gate 8 (s.isr_stub_table 8) 0x8E 1 e1 in
    let e3 = gate_loop 23 9 s.isr_stub_table 0x8E e2 in
    let e4 = gate_loop 16 32 (λ vector. s.irq_stub_table (vector - 32)) 0x8E e3 in
    let e5 = set_idt_gate 0x81 s.yield_handler 0x8E 0 e4 in set_idt_gate 0xFF s.isr255 0x8E 0 e5

-- The writes of `remap_PIC` to the ports, in order.
abbrev pub remap_pic : List (ℕ × ℕ)
remap_pic =
    (0x20, 0x11)
    ∷ (0xA0, 0x11)
    ∷ (0x21, 0x20)
    ∷ (0xA1, 0x28)
    ∷ (0x21, 0x04)
    ∷ (0xA1, 0x02)
    ∷ (0x21, 0x01)
    ∷ (0xA1, 0x01)
    ∷ (0x21, 0xFF)
    ∷ (0xA1, 0xFF)
    ∷ []

-- What happens in an interrupt, in order: a call of a function elsewhere, the end of interrupt at the local
-- controller, a call through a null pointer, or the endless loop.
pub data Event : Type 0 where
  vector_ctx_switch page_fault_handler lapic_eoi null_call halts : Event
  calls : ℕ → Event

unfoldable pub isr_handler : (int_no : ℕ) → List Event
isr_handler int_no =
    if int_no == 0x07
    then Event.vector_ctx_switch ∷ []
    else if int_no == 0x0E
    then Event.page_fault_handler ∷ []
    else Event.halts ∷ []

unfoldable pub set_irq_handler : (num handler : ℕ) → (ℕ → ℕ) → ℕ → ℕ
set_irq_handler num handler irq_handlers = update irq_handlers num handler

unfoldable pub delete_irq_handler : (num : ℕ) → (ℕ → ℕ) → ℕ → ℕ
delete_irq_handler num irq_handlers = update irq_handlers num 0

unfoldable pub irq_handler : (irq_handlers : ℕ → ℕ) → (int_no : ℕ) → List Event
irq_handler irq_handlers int_no =
    let handler = irq_handlers (int_no - 32) in
    if handler == 0 then Event.null_call ∷ [] else Event.calls handler ∷ Event.lapic_eoi ∷ []

-- An interrupt that does not return from `isr_handler` does not reach the second test.
unfoldable pub exception_handler : (irq_handlers : ℕ → ℕ) → (int_no : ℕ) → List Event
exception_handler irq_handlers int_no =
    (if ltb int_no 32 then isr_handler int_no else [])
    ++ (if ltb 31 int_no && ltb int_no 48 then irq_handler irq_handlers int_no else [])
