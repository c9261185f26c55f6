-- ===== src/Vfs.antt =====
-- The virtual file system, fs/vfs.c: the table of the open files of a process. The inode of a path and the
-- functions of `dfs_ops` are parameters; so is the address that `kmalloc` returns.
pub mod Table
mod Tests
use destin_x.Prelude.{
  ℕ, zero, suc, ◌+◌, ◌-◌, ◌*◌, ◌/◌, ◌%◌, ◌^◌, ◌≤◌, ◌<◌, ◌≡◌, ◌≢◌, ◌↔◌, ◌⊎◌, refl, sym, ap, ◌∙◌, inl,
  inr, Bool, true, false, not, ◌&&◌, ◌||◌, Option, none, some, List, [], ◌∷◌, ◌++◌, map, arith, ltb,
  leb, ◌==◌, if◌then◌else◌, update, add64, sub64, Bool-cases, Option-cases, ==_iff, ==_self, ltb→lt,
  lt→ltb, length, get_elem?, length-append, bit_and, bit_or, bit_xor, has, ◌∈◌, ◌∉◌, has-append,
}

pub data FileType : Type 0 where
  free regular directory char_dev block_dev pipe socket : FileType

-- `dfs_ops` or `terminal_ops`.
pub data Ops : Type 0 where
  dfs_ops terminal_ops : Ops

-- `fp` is the path, byte by byte.
pub record File : Type 0 where
  pub fp : ℕ → ℕ
  pub type : FileType
  pub flags : ℕ
  pub position : ℕ
  pub ops : Ops
  pub private_data : ℕ

-- The files by their addresses, and the table of the current process.
pub record Vfs : Type 0 where
  pub file : ℕ → File
  pub fd_table : ℕ → ℕ

abbrev pub max_fd : ℕ
max_fd = 128

abbrev pub max_filepath : ℕ
max_filepath = 256

-- `-1` as an `int` and as a `uint64_t`.
abbrev pub minus_one : ℕ
minus_one = 2 ^ 32 - 1

abbrev pub minus_one64 : ℕ
minus_one64 = 2 ^ 64 - 1

-- The search of `open` from place `i` on, with the places left.
unfoldable pub find_fd : (rounds i : ℕ) → (ℕ → ℕ) → ℕ
find_fd zero i fd_table = minus_one64
find_fd (suc rounds) i fd_table =
    let rest = find_fd rounds (i + 1) fd_table in if fd_table i == 0 then i else rest

-- The file that `open` makes.
abbrev pub opened : (fp : ℕ → ℕ) → (flags inode : ℕ) → File
opened fp flags inode = record {
  fp = λ i. if ltb i (max_filepath - 1) then fp i else 0;
  type = FileType.regular;
  flags = flags;
  position = 0;
  ops = Ops.dfs_ops;
  private_data = inode;
}

-- `new_file` is what `kmalloc` returns. `none` means that it is `NULL`: the source does not test it and writes
-- through it.
unfoldable pub open_file :
    (dfs_get_inode : (ℕ → ℕ) → ℕ)
    → (new_file : ℕ) → (fp : ℕ → ℕ) → (flags : ℕ) → Vfs
    → Option (ℕ × Vfs)
open_file dfs_get_inode new_file fp flags s =
    let inode = dfs_get_inode fp in
    let fd = find_fd max_fd 0 s.fd_table in
    if inode == 0
    then some (minus_one64, s)
    else if fd == minus_one64
    then some (minus_one64, s)
    else if new_file == 0
    then none
    else some (
      fd,
      record {
        file = update s.file new_file (opened fp flags inode);
        fd_table = update s.fd_table fd new_file;
      },
    )

-- What a function does with its descriptor: it returns at once, it goes on with a file, or it reads behind the
-- table, which has `max_fd` places.
pub data Looked : Type 0 where
  returns finds : ℕ → Looked
  reads_behind : Looked

abbrev pub look_up : (fd : ℕ) → Vfs → Looked
look_up fd s =
    if leb fd 2
    then Looked.returns 0
    else if ltb max_fd fd
    then Looked.returns minus_one
    else if fd == max_fd
    then Looked.reads_behind
    else if s.fd_table fd == 0
    then Looked.returns minus_one
    else Looked.finds (s.fd_table fd)

-- `ops_close` is `file->ops->close`. `none` means that the source reads behind the table.
unfoldable pub close_found : (ops_close : File → ℕ) → (fd : ℕ) → Vfs → Looked → Option (ℕ × Vfs)
close_found ops_close fd s (Looked.returns r) = some (r, s)
close_found ops_close fd s (Looked.finds f) =
    some (ops_close (s.file f), record s { fd_table = update s.fd_table fd 0 })
close_found ops_close fd s Looked.reads_behind = none

unfoldable pub close : (ops_close : File → ℕ) → (fd : ℕ) → Vfs → Option (ℕ × Vfs)
close ops_close fd s = close_found ops_close fd s (look_up fd s)

abbrev pub set_position : (f position : ℕ) → Vfs → Vfs
set_position f position s = record s {
  file = update s.file f (record (s.file f) { position = position });
}

-- `inode_size` is the `size` of an inode. The `int` that is returned is the low half of `offset`.
unfoldable pub seek_found :
    (inode_size : ℕ → ℕ) → (offset whence : ℕ) → Vfs → Looked → Option (ℕ × Vfs)
seek_found inode_size offset whence s (Looked.returns r) = some (r, s)
seek_found inode_size offset whence s (Looked.finds f) =
    let at = (s.file f).position in
    let size = inode_size (s.file f).private_data in
    if whence == 0
    then some (offset % 2 ^ 32, set_position f offset s)
    else if whence == 1
    then some (offset % 2 ^ 32, set_position f (add64 at offset) s)
    else if whence == 2
    then some (offset % 2 ^ 32, set_position f (sub64 size offset) s)
    else some (minus_one, s)
seek_found inode_size offset whence s Looked.reads_behind = none

unfoldable pub lseek : (inode_size : ℕ → ℕ) → (fd offset whence : ℕ) → Vfs → Option (ℕ × Vfs)
lseek inode_size fd offset whence s = seek_found inode_size offset whence s (look_up fd s)

unfoldable pub sync_found : (ops_sync : File → ℕ) → Vfs → Looked → Option ℕ
sync_found ops_sync s (Looked.returns r) = some r
sync_found ops_sync s (Looked.finds f) = some (ops_sync (s.file f))
sync_found ops_sync s Looked.reads_behind = none

unfoldable pub fsync : (ops_sync : File → ℕ) → (fd : ℕ) → Vfs → Option ℕ
fsync ops_sync fd s = sync_found ops_sync s (look_up fd s)
