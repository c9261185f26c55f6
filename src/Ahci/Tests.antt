-- ===== src/Ahci/Tests.antt =====
-- Thread 5 reads nine sectors into two pages, and the disk ends the command.
use destin_x.Prelude.{ℕ, ◌-◌, ◌*◌, ◌^◌, ◌<◌, ◌≡◌, refl, false, [], ◌∷◌, arith, ◌==◌, if◌then◌else◌}
use destin_x.Thread.{ThreadState, Kernel}
use destin_x.Thread.Queue.{IsRing}
use destin_x.Mutex.Waiters.{state_of}
use destin_x.Ahci.{
  Ahci, Channel, Direction, Transfer, zero_entry, fis_of, table_of, chunk_size, channel, is_error,
  transfer, finish, ahci_handler, ahci_read,
}
use destin_x.Ahci.Command.{lba_of, count_of, transferred, address_of, bytes_of, table_of_lem}
use destin_x.Ahci.Complete.{ahci_handler-transfer}

abbrev kernel : Kernel
kernel = record {
  thread = λ t. record {
    rsp = 0;
    tid = 0;
    state = ThreadState.ready;
    kernel_stack_top = 0;
    process = 0;
    prev = 0;
    next = 0;
    next_blocked = 0;
  };
  process = λ p. record { cr3 = 0; ustacks_infos = 0; mmap_infos = 0 };
  current_thread = 5;
  ready_list_head = 0;
  dead_list_head = 0;
  us_list_head = 0;
  mmap_list_head = 0;
  cr3 = 0;
  task_switched = false;
  tss_rsp0 = 0;
  kernel_rsp = 0;
}

abbrev free_channel : (reader : ℕ) → Channel
free_channel reader = record {
  mutex = record { locked = 0; blocked_head = 0; blocked_tail = 0 };
  blocked_thread = reader;
  port_is = 0;
}

-- `reader` is the thread that waits for the disk.
abbrev disk : (reader : ℕ) → Ahci
disk reader = record {
  registers = record { clb = 0x5000; clbu = 0; port_is = 1; ci = 0; hba_is = 1 };
  writes = [];
  header = λ a. record { cfl = 0; w = 0; prdtl = 0; ctba = 0; ctbau = 0 };
  table = λ a. record { cfis = fis_of Direction.reading 0 0; prdt = λ i. zero_entry };
  read = free_channel reader;
  write = free_channel 0;
  pmm = record { bitmap = λ b. 1; total_pages = 16 };
  kernel = kernel;
}

abbrev two_pages : ℕ → ℕ
two_pages i = if i == 0 then 0x7000 else 0x9000

table_of_lem_example :
    (lba_of (table_of Direction.reading 4000 9 two_pages 2).cfis ≡ 4000)
    × (count_of (table_of Direction.reading 4000 9 two_pages 2).cfis ≡ 9)
    × ((table_of Direction.reading 4000 9 two_pages 2).cfis.command ≡ 0x25)
    × (transferred 2 (table_of Direction.reading 4000 9 two_pages 2).prdt ≡ 9 * 512)
    × ((i : ℕ)
        → i < 2
        → (address_of ((table_of Direction.reading 4000 9 two_pages 2).prdt i) ≡ two_pages i)
          × (bytes_of ((table_of Direction.reading 4000 9 two_pages 2).prdt i)
              ≡ chunk_size (9 * 512 - 4096 * i))
          × (((table_of Direction.reading 4000 9 two_pages 2).prdt i).i
              ≡ (if i == 2 - 1 then 1 else 0)))
table_of_lem_example =
    table_of_lem Direction.reading 4000 9 two_pages 2 (omega arith) (omega arith) (omega arith)
      (omega arith) (λ i. ground arith)

ahci_handler-transfer_example :
    ((page : ℕ) × (s1 : Ahci) × (transfer Direction.reading 4000 9 two_pages 2 (disk 0)
        ≡ Transfer.waits_for_disk page s1)
      × ((channel Direction.reading s1).blocked_thread ≡ 5)
      × (state_of s1.kernel 5 ≡ ThreadState.blocked))
    × ((channel Direction.reading (ahci_handler (disk 5))).blocked_thread ≡ 0)
    × (state_of (ahci_handler (disk 5)).kernel 5 ≡ ThreadState.ready)
    × IsRing (ahci_handler (disk 5)).kernel (5 ∷ [])
    × ((page : ℕ)
        → (finish Direction.reading page (ahci_handler (disk 5))).0
          ≡ (if is_error 1 then 2 ^ 32 - 1 else 0))
ahci_handler-transfer_example =
    ahci_handler-transfer Direction.reading 4000 9 two_pages 2 (disk 0) (disk 5) [] (omega arith)
      refl (omega arith) refl refl refl refl refl refl

-- A list of 65 pages is refused.
too_many : ahci_read 0 520 two_pages 65 (disk 0) ≡ Transfer.refused
unfolding ahci_read transfer
too_many = refl
