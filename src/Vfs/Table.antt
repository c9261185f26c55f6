-- ===== src/Vfs/Table.antt =====
-- The descriptors that `open` gives out and `close` takes back.
use destin_x.Prelude.{
  ℕ, zero, suc, ◌+◌, ◌≤◌, ◌<◌, ◌≡◌, ◌≢◌, ◌⊎◌, refl, sym, ap, ◌∙◌, inl, inr, false, Option, none,
  some, arith, ◌==◌, if◌then◌else◌, update, Bool-cases, ==_iff, ==_self,
}
use mathlib.Core.Option.{none-ne-some, some-injective}
use mathlib.Core.Path.{subst}
use destin_x.Vfs.{
  Vfs, File, Looked, max_fd, minus_one64, find_fd, opened, open_file, look_up, close_found, close,
}

-- The first free place at or behind `i`, or none up to `n`.
abbrev pub FirstFree : (ℕ → ℕ) → (i n fd : ℕ) → Type 0
FirstFree table i n fd = (fd < n) × (table fd ≡ 0) × ((j : ℕ) → i ≤ j → j < fd → table j ≢ 0)

abbrev pub Full : (ℕ → ℕ) → (i n : ℕ) → Type 0
Full table i n = (j : ℕ) → i ≤ j → j < n → table j ≢ 0

still_taken :
    (i : ℕ) (table : ℕ → ℕ)
    → (table i == 0) ≡ false
    → (j : ℕ) → (i + 1 ≤ j → table j ≢ 0)
    → i ≤ j
    → table j ≢ 0
still_taken i table taken j later lo e = elim (Bool-cases (i == j)) [
  | inl same ↦
      let at : table i ≡ table j = ap table ((==_iff i j).0 same) in ground (arith, at, e, taken)
  | inr other ↦ later (ground (arith, other, lo)) e
]

from_next :
    (i n : ℕ) (table : ℕ → ℕ) (fd : ℕ)
    → (table i == 0) ≡ false
    → ((fd ≡ minus_one64) × Full table (i + 1) n) ⊎ FirstFree table (i + 1) n fd
    → ((fd ≡ minus_one64) × Full table i n) ⊎ FirstFree table i n fd
from_next i n table fd taken (inl (e, full)) =
    inl (e, λ j lo hi. still_taken i table taken j (λ l. full j l hi) lo)
from_next i n table fd taken (inr (small, empty, before)) =
    inr (small, empty, λ j lo hi. still_taken i table taken j (λ l. before j l hi) lo)

find_fd_lem :
    (rounds i : ℕ) (table : ℕ → ℕ) (n : ℕ)
    → i + rounds ≡ n
    → ((find_fd rounds i table ≡ minus_one64) × Full table i n)
      ⊎ FirstFree table i n (find_fd rounds i table)
unfolding find_fd
find_fd_lem zero i table n e = inl (refl, λ j lo hi. absurd (omega arith))
find_fd_lem (suc rounds) i table n e = elim (Bool-cases (table i == 0)) [
  | inl empty ↦
      rw empty
        (inr (omega (arith, e), ground (arith, empty), λ j lo hi. absurd (omega (arith, lo, hi))))
  | inr taken ↦ rw taken (
      from_next i n table (find_fd rounds (i + 1) table) taken
        (find_fd_lem rounds (i + 1) table n (omega (arith, e))))
]

-- The table and the files after a successful `open`.
pub record Opened (get_inode : (ℕ → ℕ) → ℕ) (new_file : ℕ) (fp : ℕ → ℕ) (flags : ℕ) (s : Vfs)
    (out : ℕ × Vfs) : Type 0 where
  pub inode : get_inode fp ≢ 0
  pub first_free : FirstFree s.fd_table 0 max_fd out.0
  pub table : (q : ℕ) → out.1.fd_table q ≡ (if out.0 == q then new_file else s.fd_table q)
  pub file : out.1.file new_file ≡ opened fp flags (get_inode fp)
  pub others : (a : ℕ) → new_file ≢ a → out.1.file a ≡ s.file a

-- `open` fails and changes nothing when the path has no inode or the 128 places of the table are taken. Else, when
-- `kmalloc` gives a file, it returns the lowest free descriptor, and only that place and the new file change; when
-- `kmalloc` gives none, it writes through the null pointer.
pub open_file_lem :
    (get_inode : (ℕ → ℕ) → ℕ) (new_file : ℕ) (fp : ℕ → ℕ) (flags : ℕ) (s : Vfs)
    → ((open_file get_inode new_file fp flags s ≡ some (minus_one64, s))
        × ((get_inode fp ≡ 0) ⊎ Full s.fd_table 0 max_fd))
      ⊎ (((new_file ≡ 0)
            × (open_file get_inode new_file fp flags s ≡ none)
            × (get_inode fp ≢ 0)
            × ((fd : ℕ) × FirstFree s.fd_table 0 max_fd fd))
          ⊎ ((out : ℕ × Vfs) × (open_file get_inode new_file fp flags s ≡ some out)
              × (new_file ≢ 0)
              × Opened get_inode new_file fp flags s out))
unfolding open_file
open_file_lem get_inode new_file fp flags s = elim (Bool-cases (get_inode fp == 0)) [
  | inl missing ↦ rw missing (inl (refl, inl ((==_iff (get_inode fp) 0).0 missing)))
  | inr found ↦ elim (find_fd_lem max_fd 0 s.fd_table max_fd refl) [
    | inl (e, full) ↦ rw (found, e) (inl (refl, inr full))
    | inr (small, empty, before) ↦
        let fd = find_fd max_fd 0 s.fd_table in
        let there : (fd == minus_one64) ≡ false = ground (arith, small) in
        let inode : get_inode fp ≢ 0 = ground (arith, found) in
        elim (Bool-cases (new_file == 0)) [
          | inl null ↦
              rw (found, there, null)
                (inr (inl ((==_iff new_file 0).0 null, refl, inode, (fd, (small, empty, before)))))
          | inr real ↦
              rw (found, there, real)
                (inr (
                  inr (
                    (
                      fd,
                      record {
                        file = update s.file new_file (opened fp flags (get_inode fp));
                        fd_table = update s.fd_table fd new_file;
                      },
                    ),
                    refl,
                    ground (arith, real),
                    record {
                      inode = inode;
                      first_free = (small, empty, before);
                      table = λ q. refl;
                      file = rw (==_self new_file) refl;
                      others = λ a ne. ground (arith, ne);
                    },
                  )))
        ]
  ]
]

restored :
    (before after : ℕ → ℕ) (fd new_file q : ℕ)
    → before fd ≡ 0
    → after q ≡ (if fd == q then new_file else before q)
    → update after fd 0 q ≡ before q
restored before after fd new_file q free t = elim (Bool-cases (fd == q)) [
  | inl same ↦ rw same (sym free ∙ ap before ((==_iff fd q).0 same))
  | inr other ↦ ground (arith, t, other)
]

found_again :
    (get_inode : (ℕ → ℕ) → ℕ) (new_file : ℕ) (fp : ℕ → ℕ) (flags : ℕ) (s : Vfs) (out : ℕ × Vfs)
    → new_file ≢ 0
    → 2 < out.0
    → Opened get_inode new_file fp flags s out
    → look_up out.0 out.1 ≡ Looked.finds new_file
found_again get_inode new_file fp flags s out ne third o =
    let at : out.1.fd_table out.0 ≡ new_file = o.table out.0 ∙ rw (==_self out.0) refl in
    let below = o.first_free.0 in ground (arith, ne, third, at, below)

closed :
    (ops_close : File → ℕ) (get_inode : (ℕ → ℕ) → ℕ) (new_file : ℕ) (fp : ℕ → ℕ) (flags : ℕ)
    (s : Vfs) (out : ℕ × Vfs)
    → new_file ≢ 0
    → 2 < out.0
    → Opened get_inode new_file fp flags s out
    → (s' : Vfs) × (close ops_close out.0 out.1
        ≡ some (ops_close (opened fp flags (get_inode fp)), s'))
      × ((q : ℕ) → s'.fd_table q ≡ s.fd_table q)
unfolding close close_found
closed ops_close get_inode new_file fp flags s out ne third o =
    let s' : Vfs = record out.1 { fd_table = update out.1.fd_table out.0 0 } in
    let (_, free, _) = o.first_free in
    let again = found_again get_inode new_file fp flags s out ne third o in
    (
      s',
      ap (close_found ops_close out.0 out.1) again
          ∙ ap (λ (f : File). some (ops_close f, s')) o.file,
      λ q. restored s.fd_table out.1.fd_table out.0 new_file q free (o.table q),
    )

same_result : (o : Option (ℕ × Vfs)) (a b : ℕ × Vfs) → o ≡ some a → o ≡ some b → a ≡ b
same_result o a b e f = some-injective a b (sym e ∙ f)

-- `close` of a descriptor behind the first three that `open` returned gives what the `close` of the file gives, and
-- the table is again as it was.
pub close-open_file :
    (ops_close : File → ℕ) (get_inode : (ℕ → ℕ) → ℕ) (new_file : ℕ) (fp : ℕ → ℕ) (flags : ℕ)
    (s : Vfs) (out : ℕ × Vfs)
    → open_file get_inode new_file fp flags s ≡ some out
    → 2 < out.0
    → out.0 ≢ minus_one64
    → (s' : Vfs) × (close ops_close out.0 out.1
        ≡ some (ops_close (opened fp flags (get_inode fp)), s'))
      × ((q : ℕ) → s'.fd_table q ≡ s.fd_table q)
close-open_file ops_close get_inode new_file fp flags s out e third ok =
    elim (open_file_lem get_inode new_file fp flags s) [
      | inl (failed, _) ↦
          absurd (ok (ap (λ (o : ℕ × Vfs). o.0) (same_result _ out (minus_one64, s) e failed)))
      | inr (inl (_, faults, _, _)) ↦ absurd (none-ne-some out (sym faults ∙ e))
      | inr (inr (out2, e2, ne, o)) ↦
          closed ops_close get_inode new_file fp flags s out ne third
            (subst (Opened get_inode new_file fp flags s) (same_result _ out2 out e2 e) o)
    ]
