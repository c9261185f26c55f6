-- ===== src/Gdt/Tests.antt =====
-- The task state of 104 bytes at an address of the kernel.
use destin_x.Gdt.{GdtEntry}

abbrev nothing : GdtEntry
nothing = record {
  limit_low = 0;
  base_low = 0;
  base_mid = 0;
  access = 0;
  limit_high_flags = 0;
  base_high = 0;
}
