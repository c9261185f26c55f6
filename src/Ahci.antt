-- ===== src/Ahci.antt =====
-- The AHCI disk driver, drivers/storage/ahci.c, on port 0. A read or a write is cut at its `yield`. The registers hold
-- what the device shows; the values that the driver writes to them are listed in `writes`. The command
-- headers stand at their physical addresses and a command table at its page; the flush of
-- caches before a write is the processor's.
pub mod Command
pub mod Complete
mod Tests
use destin_x.Prelude.{
  ℕ, zero, suc, ◌+◌, ◌-◌, ◌*◌, ◌/◌, ◌%◌, ◌^◌, ◌≤◌, ◌<◌, ◌≡◌, ◌≢◌, ◌↔◌, ◌⊎◌, refl, sym, ap, ◌∙◌, inl,
  inr, Bool, true, false, not, ◌&&◌, ◌||◌, Option, none, some, List, [], ◌∷◌, ◌++◌, map, arith, ltb,
  leb, ◌==◌, if◌then◌else◌, update, add64, sub64, Bool-cases, Option-cases, ==_iff, ==_self, ltb→lt,
  lt→ltb, length, get_elem?, length-append, bit_and, bit_or, bit_xor, has, ◌∈◌, ◌∉◌, has-append,
}
use destin_x.Pmm.{Pmm, alloc_page, free_page}
use destin_x.Thread.{ThreadState, Kernel, set_state, enqueue_thread}
use destin_x.Mutex.{Mutex, LockResult, mutex_lock, mutex_unlock}

-- The registers of a port that are read, and `is` of the controller.
pub record Registers : Type 0 where
  pub clb : ℕ
  pub clbu : ℕ
  pub port_is : ℕ
  pub ci : ℕ
  pub hba_is : ℕ

pub data Register : Type 0 where
  port_is port_ci hba_is : Register

pub record CmdHeader : Type 0 where
  pub cfl : ℕ
  pub w : ℕ
  pub prdtl : ℕ
  pub ctba : ℕ
  pub ctbau : ℕ

pub record PrdtEntry : Type 0 where
  pub dba : ℕ
  pub dbau : ℕ
  pub dbc : ℕ
  pub i : ℕ

pub record Fis : Type 0 where
  pub fis_type : ℕ
  pub c : ℕ
  pub command : ℕ
  pub device : ℕ
  pub lba0 : ℕ
  pub lba1 : ℕ
  pub lba2 : ℕ
  pub lba3 : ℕ
  pub lba4 : ℕ
  pub lba5 : ℕ
  pub countl : ℕ
  pub counth : ℕ

pub record CmdTable : Type 0 where
  pub cfis : Fis
  pub prdt : ℕ → PrdtEntry

-- One of the two directions: the mutex, the thread that waits and the interrupt status of its end.
pub record Channel : Type 0 where
  pub mutex : Mutex
  pub blocked_thread : ℕ
  pub port_is : ℕ

pub record Ahci : Type 0 where
  pub registers : Registers
  pub writes : List (Register × ℕ)
  pub header : ℕ → CmdHeader
  pub table : ℕ → CmdTable
  pub read : Channel
  pub write : Channel
  pub pmm : Pmm
  pub kernel : Kernel

pub data Direction : Type 0 where
  reading writing : Direction

-- The command slot of a direction, and its bit of `ci`.
abbrev pub slot : Direction → ℕ
slot Direction.reading = 0
slot Direction.writing = 1

abbrev pub command_of : Direction → ℕ
command_of Direction.reading = 0x25
command_of Direction.writing = 0x35

abbrev pub channel : Direction → Ahci → Channel
channel Direction.reading s = s.read
channel Direction.writing s = s.write

abbrev pub set_channel : Direction → Channel → Ahci → Ahci
set_channel Direction.reading x s = record s { read = x }
set_channel Direction.writing x s = record s { write = x }

abbrev pub max_prdt : ℕ
max_prdt = 64

-- A `memset` to zero.
abbrev pub zero_entry : PrdtEntry
zero_entry = record { dba = 0; dbau = 0; dbc = 0; i = 0 }

-- The size of the piece for the next page.
unfoldable pub chunk_size : (bytes_left : ℕ) → ℕ
chunk_size bytes_left = if ltb 4096 bytes_left then 4096 else bytes_left

-- `dbc` has 22 bits.
unfoldable pub entry_of : (page chunk : ℕ) → (is_last : Bool) → PrdtEntry
entry_of page chunk is_last = record {
  dba = page % 2 ^ 32;
  dbau = page / 2 ^ 32 % 2 ^ 32;
  dbc = (chunk + 2 ^ 32 - 1) % 2 ^ 22;
  i = if is_last then 1 else 0;
}

-- The loop over the pages, from page `i` on.
unfoldable pub prdt_loop :
    (rounds i page_count bytes_left : ℕ) → (pages : ℕ → ℕ) → (ℕ → PrdtEntry) → ℕ → PrdtEntry
prdt_loop zero i page_count bytes_left pages prdt = prdt
prdt_loop (suc rounds) i page_count bytes_left pages prdt =
    let chunk = chunk_size bytes_left in
    prdt_loop rounds (i + 1) page_count (bytes_left - chunk) pages
      (update prdt i (entry_of (pages i) chunk (i == page_count - 1)))

-- `lba` is a 64-bit and `seccount` a 32-bit number.
unfoldable pub fis_of : Direction → (lba seccount : ℕ) → Fis
fis_of d lba seccount = record {
  fis_type = 0x27;
  c = 1;
  command = command_of d;
  device = 64;
  lba0 = lba % 2 ^ 8;
  lba1 = lba / 2 ^ 8 % 2 ^ 8;
  lba2 = lba / 2 ^ 16 % 2 ^ 8;
  lba3 = lba / 2 ^ 24 % 2 ^ 8;
  lba4 = lba / 2 ^ 32 % 2 ^ 8;
  lba5 = lba / 2 ^ 40 % 2 ^ 8;
  countl = seccount % 2 ^ 8;
  counth = seccount / 2 ^ 8 % 2 ^ 8;
}

-- The table of a command. `seccount * 512` is a 32-bit product.
unfoldable pub table_of :
    Direction → (lba seccount : ℕ) → (pages : ℕ → ℕ) → (page_count : ℕ) → CmdTable
table_of d lba seccount pages page_count = record {
  cfis = fis_of d lba seccount;
  prdt = prdt_loop page_count 0 page_count (seccount * 512 % 2 ^ 32) pages (λ i. zero_entry);
}

-- `prdtl` has 16 bits.
unfoldable pub header_of : Direction → (phys_cmd_table page_count : ℕ) → CmdHeader
header_of d phys_cmd_table page_count = record {
  cfl = 5;
  w = slot d;
  prdtl = page_count % 2 ^ 16;
  ctba = phys_cmd_table % 2 ^ 32;
  ctbau = phys_cmd_table / 2 ^ 32;
}

-- `&cmd_header_list[slot]`, a header being 32 bytes.
abbrev pub header_addr : Direction → Registers → ℕ
header_addr d r = r.clbu * 2 ^ 32 + r.clb + 32 * slot d

-- The part with the mutex, up to `yield`.
unfoldable pub submit :
    Direction → (lba seccount : ℕ) → (pages : ℕ → ℕ) → (page_count : ℕ) → Ahci → Ahci
submit d lba seccount pages page_count s =
    let phys_cmd_table = (alloc_page s.pmm).0 in
    let t = s.kernel.current_thread in
    let s1 : Ahci = record s {
      pmm = (alloc_page s.pmm).1;
      header = update s.header (header_addr d s.registers) (header_of d phys_cmd_table page_count);
      table = update s.table phys_cmd_table (table_of d lba seccount pages page_count);
      writes = s.writes ++ ((Register.port_is, 0xFFFFFFFF) ∷ (Register.port_ci, slot d + 1) ∷ []);
      kernel = set_state t ThreadState.blocked s.kernel;
    } in
    set_channel d (record (channel d s1) { blocked_thread = t }) s1

-- How the first part of a transfer ends: -1 at once, a wait for the mutex, or a wait for the interrupt,
-- with the page of the command table.
pub data Transfer : Type 0 where
  refused : Transfer
  waits_for_mutex : Ahci → Transfer
  waits_for_disk : (phys_cmd_table : ℕ) → Ahci → Transfer

abbrev pub after_lock :
    Direction
    → (lba seccount : ℕ) → (pages : ℕ → ℕ) → (page_count : ℕ) → Ahci
    → LockResult
    → Transfer
after_lock d lba seccount pages page_count s (LockResult.acquired m k) =
    Transfer.waits_for_disk ((alloc_page s.pmm).0) (
      submit d lba seccount pages page_count
        (set_channel d (record (channel d s) { mutex = m }) (record s { kernel = k })))
after_lock d lba seccount pages page_count s (LockResult.yields m k) =
    Transfer.waits_for_mutex
      (set_channel d (record (channel d s) { mutex = m }) (record s { kernel = k }))

unfoldable pub transfer :
    Direction → (lba seccount : ℕ) → (pages : ℕ → ℕ) → (page_count : ℕ) → Ahci → Transfer
transfer d lba seccount pages page_count s =
    if ltb max_prdt page_count
    then Transfer.refused
    else after_lock d lba seccount pages page_count s (mutex_lock (channel d s).mutex s.kernel)

unfoldable pub ahci_read : (lba seccount : ℕ) → (pages : ℕ → ℕ) → (page_count : ℕ) → Ahci → Transfer
ahci_read = transfer Direction.reading

unfoldable pub ahci_write :
    (lba seccount : ℕ) → (pages : ℕ → ℕ) → (page_count : ℕ) → Ahci → Transfer
ahci_write = transfer Direction.writing

-- `x & (1 << 30)`
abbrev pub is_error : ℕ → Bool
is_error x = x / 2 ^ 30 % 2 == 1

-- From the return of `yield` on: the status, -1 being 2^32 - 1.
unfoldable pub finish : Direction → (phys_cmd_table : ℕ) → Ahci → ℕ × Ahci
finish d phys_cmd_table s =
    let (m, k) = mutex_unlock (channel d s).mutex s.kernel in
    (
      if is_error (channel d s).port_is then 2 ^ 32 - 1 else 0,
      set_channel d (record (channel d s) { mutex = m })
          (record s { pmm = free_page phys_cmd_table s.pmm; kernel = k }),
    )

-- The block of `ahci_handler` for one direction: the command has ended or failed.
unfoldable pub complete : Direction → Ahci → Ahci
complete d s =
    let x = channel d s in
    let seen = record x { port_is = s.registers.port_is } in
    let woken : Ahci =
      set_channel d (record seen { blocked_thread = 0 })
        (record s {
          kernel =
              enqueue_thread x.blocked_thread
                (set_state x.blocked_thread ThreadState.ready s.kernel);
        }) in
    if is_error s.registers.port_is || (s.registers.ci / 2 ^ slot d % 2 == 0)
    then (if x.blocked_thread == 0 then set_channel d seen s else woken)
    else s

abbrev pub add_write : Register → ℕ → Ahci → Ahci
add_write r x s = record s { writes = s.writes ++ ((r, x) ∷ []) }

unfoldable pub ahci_handler : Ahci → Ahci
ahci_handler s =
    let s1 = add_write Register.port_is s.registers.port_is s in
    let s2 = complete Direction.writing (complete Direction.reading s1) in
    add_write Register.hba_is s.registers.hba_is (if s.registers.hba_is % 2 == 1 then s2 else s)
