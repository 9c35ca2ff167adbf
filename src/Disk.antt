-- ===== src/Disk.antt =====
-- build-os/vdiskcat.c: the memory that holds the disk image is mapped and written to the standard
-- output. The system calls are parameters; what `perror` prints is left out.
pub mod Copy
use qrisc_v.Base.{
  ℕ, zero, suc, ◌+◌, ◌-◌, ◌*◌, Bool, Option, none, some, List, [], ◌∷◌, ltb, not, if◌then◌else◌,
}

abbrev pub disk_size : ℕ
disk_size = 4 * 1024 * 1024

-- Whether `open` and `mmap` succeed, and how much the k-th `write` takes of so many bytes at an
-- offset; 0 stands for every result that is not positive.
pub record Calls : Type 0 where
  pub opens : Bool
  pub maps : Bool
  pub write : ℕ → ℕ → ℕ → ℕ

-- The offsets and lengths that were written.
abbrev pub Chunks : Type 0
Chunks = List (ℕ × ℕ)

unfoldable pub cons_chunk : ℕ × ℕ → Option Chunks → Option Chunks
cons_chunk c none = none
cons_chunk c (some cs) = some (c ∷ cs)

-- The loop from an offset on, after `k` writes; none if the fuel ran out.
unfoldable pub copy_out : Calls → ℕ → ℕ → ℕ → Option Chunks
unfolding cons_chunk
copy_out calls zero k off = none
copy_out calls (suc fuel) k off =
    let n = calls.write k off (disk_size - off) in
    let rest = copy_out calls fuel (k + 1) (off + n) in
    if ltb off disk_size then (if ltb 0 n then cons_chunk (off, n) rest else some []) else some []

unfoldable pub exit_zero : Option Chunks → Option (ℕ × Chunks)
exit_zero none = none
exit_zero (some cs) = some (0, cs)

-- The exit code, and what was written.
unfoldable pub print_disk : Calls → ℕ → Option (ℕ × Chunks)
unfolding copy_out exit_zero
print_disk calls fuel =
    if not calls.opens
    then some (1, [])
    else (if not calls.maps then some (1, []) else exit_zero (copy_out calls fuel 0 0))
