-- ===== src/Idt/Gates.antt =====
-- The gates that `init_IDT` leaves.
use destin_x.Prelude.{
  ℕ, zero, suc, ◌+◌, ◌-◌, ◌*◌, ◌^◌, ◌<◌, ◌≡◌, ◌⊎◌, refl, ap, ◌∙◌, inl, inr, Bool, true, false, ◌&&◌,
  ◌||◌, arith, ltb, leb, ◌==◌, if◌then◌else◌, Bool-cases, ==_iff,
}
use destin_x.Idt.{IdtEntry, Entries, gate, set_idt_gate, gate_loop, Stubs, init_idt}

-- The address of the handler in a gate.
abbrev pub handler_of : IdtEntry → ℕ
handler_of g = g.offset_1 + g.offset_2 * 2 ^ 16 + g.offset_3 * 2 ^ 32

-- The stub of a vector: exceptions, then the interrupts of the controller, `yield` and the spurious one.
abbrev pub stub_of : Stubs → ℕ → ℕ
stub_of s v =
    if ltb v 32
    then s.isr_stub_table v
    else if ltb v 48
    then s.irq_stub_table (v - 32)
    else if v == 0x81
    then s.yield_handler
    else if v == 0xFF
    then s.isr255
    else 0

abbrev pub is_used : ℕ → Bool
is_used v = ltb v 48 || (v == 0x81) || (v == 0xFF)

first_gate :
    (v q : ℕ) (handlers : ℕ → ℕ) (flags : ℕ) (e : Entries) (later all : Bool)
    → all ≡ ((v == q) || later)
    → ((v == q) ≡ true) ⊎ ((v == q) ≡ false)
    → (if later then gate (handlers q) flags 0 else set_idt_gate v (handlers v) flags 0 e q)
      ≡ (if all then gate (handlers q) flags 0 else e q)
unfolding set_idt_gate
first_gate v q handlers flags e later all a (inl same) =
    ground (arith, a, same, ap (λ (h : ℕ). gate (handlers h) flags 0) ((==_iff v q).0 same))
first_gate v q handlers flags e later all a (inr other) = ground (arith, a, other)

gate_loop-at :
    (rounds v : ℕ) (handlers : ℕ → ℕ) (flags : ℕ) (e : Entries) (q : ℕ)
    → gate_loop rounds v handlers flags e q
      ≡ (if leb v q && ltb q (v + rounds) then gate (handlers q) flags 0 else e q)
unfolding gate_loop
gate_loop-at zero v handlers flags e q = ground arith
gate_loop-at (suc rounds) v handlers flags e q =
    gate_loop-at rounds (v + 1) handlers flags (set_idt_gate v (handlers v) flags 0 e) q
    ∙ first_gate v q handlers flags e (leb (v + 1) q && ltb q (v + 1 + rounds))
        (leb v q && ltb q (v + suc rounds)) (ground arith) (Bool-cases (v == q))

gate-handler : (h flags ist : ℕ) → h < 2 ^ 64 → handler_of (gate h flags ist) ≡ h
unfolding gate
gate-handler h flags ist small = omega (arith, small)

gate-flags : (h flags ist : ℕ) → (gate h flags ist).flags ≡ flags
unfolding gate
gate-flags h flags ist = refl

gate-selector : (h flags ist : ℕ) → (gate h flags ist).selector ≡ 8
unfolding gate
gate-selector h flags ist = refl

gate-ist : (h flags : ℕ) (b : Bool) → (gate h flags (if b then 1 else 0)).ist ≡ (if b then 1 else 0)
unfolding gate
gate-ist h flags true = refl
gate-ist h flags false = refl

init_idt-at :
    (s : Stubs) (e : Entries) (v : ℕ)
    → v < 256
    → init_idt s e v ≡ gate (stub_of s v) (if is_used v then 0x8E else 0) (if v == 8 then 1 else 0)
unfolding init_idt set_idt_gate
init_idt-at s e v small =
    let e0 = gate_loop 256 0 (λ vector. 0) 0 e in
    let e1 = gate_loop 8 0 s.isr_stub_table 0x8E e0 in
    let e2 = set_idt_gate 8 (s.isr_stub_table 8) 0x8E 1 e1 in
    let e3 = gate_loop 23 9 s.isr_stub_table 0x8E e2 in
    let a0 = gate_loop-at 256 0 (λ vector. 0) 0 e v in
    let a1 = gate_loop-at 8 0 s.isr_stub_table 0x8E e0 v in
    let a3 = gate_loop-at 23 9 s.isr_stub_table 0x8E e2 v in
    let a4 = gate_loop-at 16 32 (λ vector. s.irq_stub_table (vector - 32)) 0x8E e3 v in
    ground (arith, small, a0, a1, a3, a4)

-- After `init_IDT` the gate of every vector below 256 leads to its stub in the kernel's code segment, where
-- the stubs are 64-bit addresses: the exceptions, the 16 interrupts of the controllers, `yield` and the spurious interrupt are
-- present interrupt gates, only the double fault has a stack of its own, and every other gate is absent.
pub init_idt_lem :
    (s : Stubs) (e : Entries) (v : ℕ)
    → v < 256
    → stub_of s v < 2 ^ 64
    → (handler_of (init_idt s e v) ≡ stub_of s v)
      × ((init_idt s e v).flags ≡ (if is_used v then 0x8E else 0))
      × ((init_idt s e v).ist ≡ (if v == 8 then 1 else 0))
      × ((init_idt s e v).selector ≡ 8)
init_idt_lem s e v small word =
    let used = if is_used v then 0x8E else 0 in
    let stack = if v == 8 then 1 else 0 in
    rw (init_idt-at s e v small) (
      gate-handler (stub_of s v) used stack word,
      gate-flags (stub_of s v) used stack,
      gate-ist (stub_of s v) used (v == 8),
      gate-selector (stub_of s v) used stack,
    )
