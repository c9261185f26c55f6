-- ===== src/Ahci/Complete.antt =====
-- A transfer waits, and the interrupt of the disk ends its wait.
use destin_x.Prelude.{
  ℕ, ◌-◌, ◌/◌, ◌%◌, ◌^◌, ◌≤◌, ◌≡◌, ◌≢◌, refl, ap, ◌∙◌, inl, inr, Bool, true, false, ◌||◌, List, [],
  ◌∷◌, ◌++◌, arith, ltb, ◌==◌, if◌then◌else◌, Bool-cases, ◌∉◌,
}
use destin_x.Thread.{ThreadState, Kernel, set_state, enqueue_thread}
use destin_x.Thread.Queue.{IsRing}
use destin_x.Mutex.{mutex_lock}
use destin_x.Mutex.Waiters.{state_of}
use destin_x.Scheduler.Wakeup.{state-set_state, wakeup-IsRing}
use destin_x.Pmm.{alloc_page}
use destin_x.Ahci.{
  Ahci, Registers, Channel, Register, add_write, Direction, Transfer, max_prdt, slot, channel,
  set_channel, is_error, submit, transfer, finish, complete, ahci_handler,
}

abbrev pub other : Direction → Direction
other Direction.reading = Direction.writing
other Direction.writing = Direction.reading

-- The device says that the command of the direction has ended or failed.
abbrev pub has_ended : Direction → Ahci → Bool
has_ended d s = is_error s.registers.port_is || (s.registers.ci / 2 ^ slot d % 2 == 0)

-- The state in which the mutex of the direction is taken.
abbrev taken : Direction → Ahci → Ahci
taken d s =
    set_channel d (record (channel d s) { mutex = record (channel d s).mutex { locked = 1 } }) s

taken-kernel : (d : Direction) (s : Ahci) → (taken d s).kernel ≡ s.kernel
taken-kernel Direction.reading s = refl
taken-kernel Direction.writing s = refl

submitted :
    (d : Direction) (lba sec : ℕ) (pages : ℕ → ℕ) (n : ℕ) (s : Ahci)
    → ((channel d (submit d lba sec pages n s)).blocked_thread ≡ s.kernel.current_thread)
      × ((submit d lba sec pages n s).kernel
          ≡ set_state s.kernel.current_thread ThreadState.blocked s.kernel)
unfolding submit
submitted Direction.reading lba sec pages n s = (refl, refl)
submitted Direction.writing lba sec pages n s = (refl, refl)

started :
    (d : Direction) (lba sec : ℕ) (pages : ℕ → ℕ) (n : ℕ) (s : Ahci)
    → n ≤ max_prdt
    → (channel d s).mutex.locked ≡ 0
    → transfer d lba sec pages n s
      ≡ Transfer.waits_for_disk ((alloc_page s.pmm).0) (submit d lba sec pages n (taken d s))
unfolding transfer mutex_lock
started d lba sec pages n s le free =
    let few : ltb max_prdt n ≡ false = ground (arith, le) in rw (few, free) refl

-- `complete` of an ended direction with a waiting thread, and of the other one with none.
complete-ended :
    (d : Direction) (s : Ahci) (t : ℕ)
    → (channel d s).blocked_thread ≡ t
    → t ≢ 0
    → has_ended d s ≡ true
    → ((complete d s).kernel ≡ enqueue_thread t (set_state t ThreadState.ready s.kernel))
      × ((channel d (complete d s)).blocked_thread ≡ 0)
      × ((channel d (complete d s)).port_is ≡ s.registers.port_is)
      × ((complete d s).registers ≡ s.registers)
      × (channel (other d) (complete d s) ≡ channel (other d) s)
unfolding complete
complete-ended Direction.reading s t at ne ended =
    let waits : (s.read.blocked_thread == 0) ≡ false = ground (arith, at, ne) in
    rw (ended, waits)
      (
        ap (λ (r : ℕ). enqueue_thread r (set_state r ThreadState.ready s.kernel)) at,
        refl,
        refl,
        refl,
        refl,
      )
complete-ended Direction.writing s t at ne ended =
    let waits : (s.write.blocked_thread == 0) ≡ false = ground (arith, at, ne) in
    rw (ended, waits)
      (
        ap (λ (r : ℕ). enqueue_thread r (set_state r ThreadState.ready s.kernel)) at,
        refl,
        refl,
        refl,
        refl,
      )

complete-idle :
    (d : Direction) (s : Ahci)
    → (channel d s).blocked_thread ≡ 0
    → ((complete d s).kernel ≡ s.kernel)
      × ((complete d s).registers ≡ s.registers)
      × ((channel d (complete d s)).blocked_thread ≡ 0)
      × (channel (other d) (complete d s) ≡ channel (other d) s)
unfolding complete
complete-idle Direction.reading s none_waits =
    let idle : (s.read.blocked_thread == 0) ≡ true = ground (arith, none_waits) in
    elim (Bool-cases (has_ended Direction.reading s)) [
      | inl ended ↦ rw (ended, idle) (refl, refl, none_waits, refl)
      | inr going ↦ rw going (refl, refl, none_waits, refl)
    ]
complete-idle Direction.writing s none_waits =
    let idle : (s.write.blocked_thread == 0) ≡ true = ground (arith, none_waits) in
    elim (Bool-cases (has_ended Direction.writing s)) [
      | inl ended ↦ rw (ended, idle) (refl, refl, none_waits, refl)
      | inr going ↦ rw going (refl, refl, none_waits, refl)
    ]

-- The two blocks of the handler, one after the other, when only one direction waits.
abbrev Woken : Direction → Ahci → (t : ℕ) → Ahci → Type 0
Woken d s t s' =
    (s'.kernel ≡ enqueue_thread t (set_state t ThreadState.ready s.kernel))
    × ((channel d s').blocked_thread ≡ 0)
    × ((channel d s').port_is ≡ s.registers.port_is)

ended-registers :
    (d : Direction) (s s' : Ahci) → s'.registers ≡ s.registers → has_ended d s' ≡ has_ended d s
ended-registers d s s' e =
    ap (λ (r : Registers). is_error r.port_is || (r.ci / 2 ^ slot d % 2 == 0)) e

blocks-Woken :
    (d : Direction) (s : Ahci) (t : ℕ)
    → (channel d s).blocked_thread ≡ t
    → t ≢ 0
    → (channel (other d) s).blocked_thread ≡ 0
    → has_ended d s ≡ true
    → Woken d s t (complete Direction.writing (complete Direction.reading s))
blocks-Woken Direction.reading s t at ne idle ended =
    let s1 = complete Direction.reading s in
    let (k, none_left, is, regs, same) = complete-ended Direction.reading s t at ne ended in
    let (k2, _, _, same2) =
      complete-idle Direction.writing s1 (ap (λ (x : Channel). x.blocked_thread) same ∙ idle) in
    (
      k2 ∙ k,
      ap (λ (x : Channel). x.blocked_thread) same2 ∙ none_left,
      ap (λ (x : Channel). x.port_is) same2 ∙ is,
    )
blocks-Woken Direction.writing s t at ne idle ended =
    let s1 = complete Direction.reading s in
    let (k, regs, _, same) = complete-idle Direction.reading s idle in
    let (k2, none_left, is, _, _) =
      complete-ended Direction.writing s1 t (ap (λ (x : Channel). x.blocked_thread) same ∙ at) ne
        (ended-registers Direction.writing s s1 regs ∙ ended) in
    (
      k2 ∙ ap (λ (x : Kernel). enqueue_thread t (set_state t ThreadState.ready x)) k,
      none_left,
      is ∙ ap (λ (r : Registers). r.port_is) regs,
    )

handler-Woken :
    (d : Direction) (s : Ahci) (t : ℕ)
    → s.registers.hba_is % 2 ≡ 1
    → (channel d s).blocked_thread ≡ t
    → t ≢ 0
    → (channel (other d) s).blocked_thread ≡ 0
    → has_ended d s ≡ true
    → Woken d s t (ahci_handler s)
unfolding ahci_handler
handler-Woken Direction.reading s t port at ne idle ended =
    let odd : (s.registers.hba_is % 2 == 1) ≡ true = ground (arith, port) in
    rw odd (
      blocks-Woken Direction.reading (add_write Register.port_is s.registers.port_is s) t at ne idle
        ended)
handler-Woken Direction.writing s t port at ne idle ended =
    let odd : (s.registers.hba_is % 2 == 1) ≡ true = ground (arith, port) in
    rw odd (
      blocks-Woken Direction.writing (add_write Register.port_is s.registers.port_is s) t at ne idle
        ended)

finish-status :
    (d : Direction) (page : ℕ) (s : Ahci)
    → (finish d page s).0 ≡ (if is_error (channel d s).port_is then 2 ^ 32 - 1 else 0)
unfolding finish
finish-status d page s = refl

-- A transfer of at most 64 pages that gets the mutex blocks its thread and names it in its direction. When such
-- a thread waits, the other direction has none that waits, and the interrupt of port 0 says that the command
-- has ended or failed, the handler takes the thread off, makes it ready and puts it at the end of the ready queue;
-- the transfer then returns -1 exactly when the port showed an error, and else 0.
pub ahci_handler-transfer :
    (d : Direction) (lba sec : ℕ) (pages : ℕ → ℕ) (n : ℕ) (s0 s : Ahci) (xs : List ℕ)
    → n ≤ max_prdt
    → (channel d s0).mutex.locked ≡ 0
    → s0.kernel.current_thread ≢ 0
    → s.registers.hba_is % 2 ≡ 1
    → (channel d s).blocked_thread ≡ s0.kernel.current_thread
    → (channel (other d) s).blocked_thread ≡ 0
    → has_ended d s ≡ true
    → IsRing s.kernel xs
    → s0.kernel.current_thread ∉ xs
    → ((page : ℕ) × (s1 : Ahci) × (transfer d lba sec pages n s0 ≡ Transfer.waits_for_disk page s1)
        × ((channel d s1).blocked_thread ≡ s0.kernel.current_thread)
        × (state_of s1.kernel s0.kernel.current_thread ≡ ThreadState.blocked))
      × ((channel d (ahci_handler s)).blocked_thread ≡ 0)
      × (state_of (ahci_handler s).kernel s0.kernel.current_thread ≡ ThreadState.ready)
      × IsRing (ahci_handler s).kernel (xs ++ (s0.kernel.current_thread ∷ []))
      × ((page : ℕ)
          → (finish d page (ahci_handler s)).0
            ≡ (if is_error s.registers.port_is then 2 ^ 32 - 1 else 0))
ahci_handler-transfer d lba sec pages n s0 s xs le free ne port at idle ended ring out =
    let t = s0.kernel.current_thread in
    let page = (alloc_page s0.pmm).0 in
    let s1 = submit d lba sec pages n (taken d s0) in
    let (named, kernel1) = submitted d lba sec pages n (taken d s0) in
    let same = taken-kernel d s0 in
    let (k, none_left, is) = handler-Woken d s t port at ne idle ended in
    let (ready, ring') = wakeup-IsRing s.kernel t xs ne ring out in
    (
      (
        page,
        s1,
        started d lba sec pages n s0 le free,
        named ∙ ap (λ (x : Kernel). x.current_thread) same,
        ap (λ (x : Kernel). state_of x t)
              (kernel1 ∙ ap (λ (x : Kernel). set_state x.current_thread ThreadState.blocked x) same)
            ∙ state-set_state s0.kernel t ThreadState.blocked,
      ),
      none_left,
      rw k ready,
      rw k ring',
      λ p.
          finish-status d p (ahci_handler s)
          ∙ ap (λ (x : ℕ). if is_error x then 2 ^ 32 - 1 else 0) is,
    )
