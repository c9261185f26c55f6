-- ===== src/Vfs/Tests.antt =====
-- A process with its standard files open, and every path of inode 9.
use destin_x.Prelude.{ℕ, ◌≡◌, ◌≢◌, ◌⊎◌, refl, none, some, arith, ltb, ◌==◌, if◌then◌else◌, update}
use destin_x.Vfs.{
  Vfs, File, FileType, Ops, opened, open_file, close, lseek, fsync, minus_one, minus_one64, max_fd,
  find_fd, seek_found, sync_found,
}
use destin_x.Vfs.Table.{Full, FirstFree, Opened, open_file_lem, close-open_file}

abbrev stdin : File
stdin = record {
  fp = λ i. 0;
  type = FileType.char_dev;
  flags = 1;
  position = 0;
  ops = Ops.terminal_ops;
  private_data = 0;
}

abbrev process : Vfs
process = record { file = λ a. stdin; fd_table = λ i. if ltb i 3 then 0x1000 else 0 }

abbrev path : ℕ → ℕ
path i = if i == 0 then b'a' else 0

abbrev inode_nine : (ℕ → ℕ) → ℕ
inode_nine p = 9

abbrev third : ℕ × Vfs
third = (
  3,
  record {
    file = update process.file 0x2000 (opened path 3 9);
    fd_table = update process.fd_table 3 0x2000;
  },
)

abbrev address : ℕ
address = 0x2000

third_is_free : open_file inode_nine 0x2000 path 3 process ≡ some third
unfolding open_file find_fd
third_is_free = refl

close-open_file_example :
    (s' : Vfs) × (close (λ f. 0) 3 third.1 ≡ some (0, s'))
    × ((q : ℕ) → s'.fd_table q ≡ process.fd_table q)
close-open_file_example =
    close-open_file (λ f. 0) inode_nine 0x2000 path 3 process third third_is_free (omega arith)
      (λ e. absurd (omega (arith, e)))

open_file_lem_example :
    ((open_file inode_nine address path 3 process ≡ some (minus_one64, process))
      × ((inode_nine path ≡ 0) ⊎ Full process.fd_table 0 max_fd))
    ⊎ (((address ≡ 0)
          × (open_file inode_nine address path 3 process ≡ none)
          × (inode_nine path ≢ 0)
          × ((fd : ℕ) × FirstFree process.fd_table 0 max_fd fd))
        ⊎ ((out : ℕ × Vfs) × (open_file inode_nine address path 3 process ≡ some out)
            × (address ≢ 0)
            × Opened inode_nine address path 3 process out))
open_file_lem_example = open_file_lem inode_nine address path 3 process

-- A seek of a file that is not open fails, and descriptor 128 is behind the table.
no_file : lseek (λ i. 0) 5 10 0 process ≡ some (minus_one, process)
unfolding lseek seek_found
no_file = refl

behind : fsync (λ f. 0) 128 process ≡ none
unfolding fsync sync_found
behind = refl
