-- ===== src/Idt/Tests.antt =====
-- The table with stubs at 0xFFFF…, and the dispatch of some interrupts.
use destin_x.Prelude.{◌+◌, ◌*◌, ◌≡◌, refl, [], ◌∷◌}
use destin_x.Idt.{
  IdtEntry, Stubs, Event, exception_handler, set_irq_handler, isr_handler, irq_handler,
  delete_irq_handler,
}

abbrev stubs : Stubs
stubs = record {
  isr_stub_table = λ v. 0xFFFFFFFF80100000 + 16 * v;
  irq_stub_table = λ v. 0xFFFFFFFF80200000 + 16 * v;
  yield_handler = 0xFFFFFFFF80300000;
  isr255 = 0xFFFFFFFF80300010;
}

abbrev nothing : IdtEntry
nothing = record {
  offset_1 = 0;
  selector = 0;
  ist = 0;
  flags = 0;
  offset_2 = 0;
  offset_3 = 0;
  reserved = 0;
}

-- The timer's interrupt calls its handler, and one without a handler calls through a null pointer.
timer :
    exception_handler (set_irq_handler 0 0x5000 (λ n. 0)) 32
    ≡ Event.calls 0x5000 ∷ Event.lapic_eoi ∷ []
unfolding exception_handler set_irq_handler isr_handler irq_handler
timer = refl

no_timer : exception_handler (delete_irq_handler 0 (λ n. 0x5000)) 32 ≡ Event.null_call ∷ []
unfolding exception_handler delete_irq_handler isr_handler irq_handler
no_timer = refl

page_fault : exception_handler (λ n. 0) 14 ≡ Event.page_fault_handler ∷ []
unfolding exception_handler isr_handler irq_handler
page_fault = refl
