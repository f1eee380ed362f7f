-- ===== src/Ramfs/Tests.antt =====
-- The file system of src/fs/ramfs.c at concrete inputs.
use kontol_os.Base.{
  ℕ, zero, suc, ◌+◌, ◌-◌, ◌%◌, ◌≡◌, refl, inl, inr, true, false, some, List, [], ◌∷◌, ◌++◌, arith,
  length, replicate, update, pos,
}
use kontol_os.Memory.{Memory, null, mem_block, heap_begin, heap_size, kmalloc}
use kontol_os.Memory.Block.{block, Blocks, fit, coalesce}
use kontol_os.Memory.Layout.{Represents}
use kontol_os.Memory.Owned.{Owned}
use kontol_os.Memory.InUse.{in_use}
use kontol_os.Memory.Claims.{Claims, Apart, Apart-null}
use kontol_os.Ramfs.Claims.{InOrder, claims}
use kontol_os.Ramfs.Rewrite.{Rewrites, fs_write-Rewrites}
use kontol_os.CString.{CString, strlen, strcmp}
use kontol_os.Ramfs.{
  File, Fs, file_at, write_file, fs_find, find_from, has_flag, same_string, fs_create, fs_rmdir,
  fs_delete, free_data, fs_chdir, fs_flag_used,
}
use kontol_os.Ramfs.Data.{fs_write}
use kontol_os.Ramfs.Listing.{fs_list}
use kontol_os.Ramfs.Table.{IsValid, WellNamed, Distinct}
use kontol_os.Ramfs.Create.{Creates, fs_create-Creates}
use kontol_os.Ramfs.Remove.{RemovesDir, fs_rmdir-RemovesDir, Deletes, fs_delete-Deletes}
use kontol_os.Ramfs.Contents.{Writes, fs_write-Writes, ReadsStale, fs_read-Stale}
use kontol_os.Ramfs.Copies.{ReadsBack, fs_read-fs_write}
use kontol_os.Memory.Free.{kfree-coalesce}
use kontol_os.Memory.Alloc.{kmalloc-fit}
use kontol_os.Ramfs.Lines.{listing, lines, fs_list-lines}
use kontol_os.Ramfs.Start.{Changes, fs_chdir-Changes, Sized}

abbrev named : List ℕ → ℕ → ℕ → ℕ → File
named name p n flags = record {
  name = name ++ replicate 27 0;
  data_ptr = p;
  size = n;
  flags = flags;
}

-- "n.txt" in use, without data, and "docs", a directory; the other entries are free.
abbrev two_files : Fs
two_files = record {
  file_table =
      named (b'n' ∷ b'.' ∷ b't' ∷ b'x' ∷ b't' ∷ []) 0 0 1
      ∷ named (b'd' ∷ b'o' ∷ b'c' ∷ b's' ∷ 0 ∷ []) 0 0 5
      ∷ replicate 62 (named (replicate 5 0) 0 0 0);
  current_dir = b'/' ∷ replicate 31 0;
  fs_initialized = 1;
}

abbrev note_name : CString
note_name = b'n' ∷ b'.' ∷ b't' ∷ b'x' ∷ b't' ∷ []

abbrev docs_name : CString
docs_name = b'd' ∷ b'o' ∷ b'c' ∷ b's' ∷ []

blank-WellNamed : (n : ℕ) → WellNamed (replicate n (named (replicate 5 0) 0 0 0))
unfolding has_flag
blank-WellNamed zero = tt
blank-WellNamed (suc n) = (refl, inl refl, blank-WellNamed n)

blank-Distinct : (n : ℕ) → Distinct (replicate n (named (replicate 5 0) 0 0 0))
unfolding has_flag
blank-Distinct zero = tt
blank-Distinct (suc n) = (inl refl, blank-Distinct n)

blank-Sized : (n : ℕ) → Sized (replicate n (named (replicate 5 0) 0 0 0))
blank-Sized zero = tt
blank-Sized (suc n) = (refl, blank-Sized n)

two_files-IsValid : IsValid two_files
unfolding has_flag strlen find_from same_string strcmp
two_files-IsValid = record {
  slots = refl;
  named = (
    refl,
    inr (omega arith, omega arith),
    (refl, inr (omega arith, omega arith), blank-WellNamed 62),
  );
  distinct = (inr refl, (inr refl, blank-Distinct 62));
  dir = refl;
}

fs_create-Creates_example :
    Creates fs_flag_used (b'a' ∷ []) two_files (fs_create (some (b'a' ∷ [])) two_files)
fs_create-Creates_example = fs_create-Creates (b'a' ∷ []) two_files-IsValid

fs_rmdir-RemovesDir_example : RemovesDir docs_name two_files (fs_rmdir docs_name two_files)
fs_rmdir-RemovesDir_example = fs_rmdir-RemovesDir docs_name two_files-IsValid

fs_chdir-Changes_example : Changes docs_name two_files (fs_chdir (some docs_name) two_files)
fs_chdir-Changes_example = fs_chdir-Changes docs_name two_files-IsValid

-- A heap in which one block of 32 bytes is in use, the data of "n.txt".
abbrev small : Memory
small = record {
  heap_start = heap_begin;
  total_memory = heap_size;
  used_memory = 32;
  header =
      update (update (λ a. mem_block 0 false 0) 0x200000 (mem_block 32 true 0x200020)) 0x200020
        (mem_block (heap_size - 32) false 0);
  bytes = λ a. a % 256;
}

small-Represents : Represents small (block 32 true ∷ block (heap_size - 32) false ∷ [])
small-Represents = ground arith

abbrev stored : Fs
stored = write_file 0 (record (file_at two_files 0) { data_ptr = 0x20000c; size = 20 }) two_files

stored-IsValid : IsValid stored
unfolding has_flag strlen find_from same_string strcmp
stored-IsValid = record {
  slots = refl;
  named = (
    refl,
    inr (omega arith, omega arith),
    (refl, inr (omega arith, omega arith), blank-WellNamed 62),
  );
  distinct = (inr refl, (inr refl, blank-Distinct 62));
  dir = refl;
}

stored-Owned : Owned small 0x20000c 20
stored-Owned = ([], 32, block (heap_size - 32) false ∷ [], small-Represents, refl, omega arith)

fs_delete-Deletes_example : Deletes note_name 0 stored small (fs_delete note_name stored small)
unfolding fs_find find_from has_flag same_string strcmp
fs_delete-Deletes_example =
    fs_delete-Deletes note_name 0 stored-IsValid (_, small-Represents) refl (inr (20, stored-Owned))

fs_write-Writes_example :
    Writes 0 0x1000 100 stored small (fs_write (some 0) 0x1000 100 stored small)
fs_write-Writes_example =
    fs_write-Writes 0 0x1000 100 (_, small-Represents) (inr (20, stored-Owned)) (omega arith)
      (omega arith) (omega arith, inl (omega arith))

-- The same, with the rest of the heap in use as well.
abbrev full : Memory
full = record small {
  used_memory = heap_size;
  header =
      update (update (λ a. mem_block 0 false 0) 0x200000 (mem_block 32 true 0x200020)) 0x200020
        (mem_block (heap_size - 32) true 0);
}

full-Represents : Represents full (block 32 true ∷ block (heap_size - 32) true ∷ [])
full-Represents = ground arith

-- The block of "n.txt" is all that is free, and it is too small.
no_room :
    (m1 : Memory) × (m2 : Memory) × (free_data (file_at stored 0).data_ptr full ≡ some m1)
    × (kmalloc 100 m1 ≡ some (null, m2))
unfolding free_data fit coalesce
no_room =
    let (m1, freed, r, same) =
      kfree-coalesce [] 32 (block (heap_size - 32) true ∷ []) full-Represents in
    let (m2, got, r', same') = kmalloc-fit 100 (omega arith) (omega arith) r in (m1, m2, freed, got)

fs_read-Stale_example : ReadsStale 0 0x1000 100 0x2000 100 5 stored full no_room.1
fs_read-Stale_example =
    fs_read-Stale 0 0x1000 100 0x2000 100 5 stored full (omega arith) (omega arith) (omega arith)
      (omega arith) no_room.2 no_room.3 (omega arith) (omega arith) (omega arith)

fs_list-lines_example :
    (rest : List ℕ) × (fs_list (some (7 ∷ replicate 15 7)) 16 two_files
      ≡ some (
        pos (length (listing 16 0 two_files.file_table)),
        lines (listing 16 0 two_files.file_table) ++ (0 ∷ rest),
      ))
    × (length (lines (listing 16 0 two_files.file_table)) + length rest ≡ 15)
fs_list-lines_example = fs_list-lines 16 7 (replicate 15 7) two_files (omega arith) (omega arith)

blank-Claims :
    (n : ℕ)
    → Claims
        (block 32 true ∷ block (heap_size - 32) false ∷ [])
        (claims (replicate n (named (replicate 5 0) 0 0 0)) ((0, 80) ∷ []))
blank-Claims zero = (inl refl, tt, tt)
blank-Claims (suc n) = (
  inl refl,
  Apart-null 0 (claims (replicate n (named (replicate 5 0) 0 0 0)) ((0, 80) ∷ [])) refl,
  blank-Claims n,
)

blank-Apart :
    (n : ℕ) → Apart 0x20000c (claims (replicate n (named (replicate 5 0) 0 0 0)) ((0, 80) ∷ []))
blank-Apart zero = (inr (λ e. omega arith), tt)
blank-Apart (suc n) = (inr (λ e. omega arith), blank-Apart n)

-- The data of "n.txt" on the heap, beside a NULL of somebody else.
stored-InOrder : InOrder ((0, 80) ∷ []) stored small
unfolding in_use
stored-InOrder = (
  block 32 true ∷ block (heap_size - 32) false ∷ [],
  small-Represents,
  (
    inr (32, inl (refl, refl), omega arith),
    (inr (λ e. omega arith), blank-Apart 62),
    (
      inl refl,
      Apart-null 0 (claims (replicate 62 (named (replicate 5 0) 0 0 0)) ((0, 80) ∷ [])) refl,
      blank-Claims 62,
    ),
  ),
)

fs_write-Rewrites_example :
    Rewrites 0 0x1000 100 ((0, 80) ∷ []) stored small (fs_write (some 0) 0x1000 100 stored small)
fs_write-Rewrites_example =
    fs_write-Rewrites 0 0x1000 100 ((0, 80) ∷ []) stored small (omega arith) stored-InOrder

-- Two blocks of the heap in use, of somebody who writes to a file and reads it.
abbrev paired : Memory
paired = record {
  heap_start = heap_begin;
  total_memory = heap_size;
  used_memory = 160;
  header =
      update
        (update (update (λ a. mem_block 0 false 0) 0x200000 (mem_block 48 true 0x200030)) 0x200030
          (mem_block 112 true 0x2000a0))
        0x2000a0 (mem_block (heap_size - 160) false 0);
  bytes = λ a. a % 256;
}

abbrev paired_blocks : Blocks
paired_blocks = block 48 true ∷ block 112 true ∷ block (heap_size - 160) false ∷ []

paired-Represents : Represents paired paired_blocks
paired-Represents = ground arith

abbrev arrays : List (ℕ × ℕ)
arrays = (0x20000c, 20) ∷ (0x20003c, 100) ∷ []

arrays-Claims : Claims paired_blocks arrays
unfolding in_use
arrays-Claims = (
  inr (48, inl (refl, refl), omega arith),
  (inr (λ e. omega arith), tt),
  (inr (112, inr (inl (refl, refl)), omega arith), tt, tt),
)

empty-Claims :
    (n : ℕ) → Claims paired_blocks (claims (replicate n (named (replicate 5 0) 0 0 0)) arrays)
empty-Claims zero = arrays-Claims
empty-Claims (suc n) = (
  inl refl,
  Apart-null 0 (claims (replicate n (named (replicate 5 0) 0 0 0)) arrays) refl,
  empty-Claims n,
)

paired-InOrder : InOrder arrays two_files paired
paired-InOrder = (
  paired_blocks,
  paired-Represents,
  (
    inl refl,
    Apart-null 0 ((0, 0) ∷ claims (replicate 62 (named (replicate 5 0) 0 0 0)) arrays) refl,
    (
      inl refl,
      Apart-null 0 (claims (replicate 62 (named (replicate 5 0) 0 0 0)) arrays) refl,
      empty-Claims 62,
    ),
  ),
)

fs_read-fs_write_example : ReadsBack 0 0x20000c 20 0x20003c 100 5 two_files paired
fs_read-fs_write_example =
    fs_read-fs_write 0 0x20000c 20 20 0x20003c 100 100 5 [] two_files paired (omega arith)
      (omega arith) (omega arith) (omega arith) (omega arith) (omega arith) (omega arith)
      (omega arith) paired-InOrder
