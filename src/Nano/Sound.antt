-- ===== src/Nano/Sound.antt =====
-- The editor of src/kernel/shell.c and the heap: its lines, loading and saving keep the system in order.
pub mod Loop
use kontol_os.Base.{
  leb, true, le→leb, ℕ, zero, suc, ◌+◌, ◌*◌, ◌^◌, ◌≤◌, ◌<◌, ◌≡◌, ◌≢◌, refl, sym, ap, ◌∙◌, subst,
  ◌⊎◌, inl, inr, true, false, Option, none, some, List, [], ◌∷◌, ◌++◌, arith, ◌==◌, ltb, Bool-cases,
  Option-cases, ℤ, add32, if◌then◌else◌, length, update, set, Whenever, Whenever-bind, Whenever-any,
  Whenever-map,
}
use mathlib.Core.Option
use kontol_os.CString.{CString, strlen}
use kontol_os.Memory.{Memory, kmalloc, kfree, null, room}
use kontol_os.Ramfs.{
  File, Fs, file_at, write_file, fs_find, fs_open, fs_exists, fs_get_size, fs_create,
  fs_max_filesize, free_data, fs_flag_used,
}
use kontol_os.Ramfs.Data.{fs_read, fs_write}
use kontol_os.Ramfs.Create.{fs_create-Creates}
use kontol_os.Ramfs.Claims.{
  held_room, InOrder, InOrder-bytes, InOrder-front, allocate, release, forget, free_data-kfree,
}
use kontol_os.Ramfs.Rewrite.{fs_write-Rewrites}
use kontol_os.Ramfs.Same.{IsValid-same, Bounded-set, Bounded-get}
use kontol_os.Keyboard.{keyboard_getchar}
use kontol_os.Keyboard.Reads.{Gets, keyboard_getchar-Gets}
use kontol_os.Shell.System.{System, Outcome, returned, draw, finish, second}
use kontol_os.Shell.Files.{string_at}
use kontol_os.Shell.Sound.{
  Sound, IsSound, After, Runs, draw-Sound, memory-Sound, files-Sound, finish-Runs,
}
use kontol_os.Shell.Sound.Files.{Returns, Creates-Returns, find-inside, read-InOrder}
use kontol_os.Nano.{Editor, press, clamp, nano_max_lines}
use kontol_os.Nano.Sizes.{
  Narrow, Small, Loaded, load_lines-Narrow, start-Small, new_line-bound, Small-total,
}
use kontol_os.Nano.Storage.{
  fits_in, alloc_lines, free_lines, new_line, load, load_lines, open_file, start, join_lines, save,
  save_to, store, total_size,
}
use kontol_os.Nano.Loop.{screen_calls, nano_loop, ensure_file, leave, run_nano, nano_file, cmd_nano}

-- The claims on the lines.
abbrev pub line_claims : List ℕ → List (ℕ × ℕ)
line_claims [] = []
line_claims (p ∷ ps) = (p, 80) ∷ line_claims ps

abbrev pub Allocated : List (ℕ × ℕ) → Fs → List ℕ × List (List ℕ) × Memory → Type 0
Allocated cs fs (ps, ls, m) = Narrow ls × InOrder (line_claims ps ++ cs) fs m

pub alloc_lines-InOrder :
    (n : ℕ) (cs : List (ℕ × ℕ)) (fs : Fs) (m : Memory)
    → InOrder cs fs m
    → Whenever (Allocated cs fs) (alloc_lines n m)
unfolding alloc_lines Option.bind
alloc_lines-InOrder zero cs fs m h = (tt, h)
alloc_lines-InOrder (suc n) cs fs m h =
    let (p, m1, got, h1, same) = allocate 80 cs fs m (omega arith) (omega arith) h in
    rw got (elim (Bool-cases (fits_in 80 p m1)) [
      | inr short ↦ rw short tt
      | inl fits ↦ rw fits (
          Whenever-map (Allocated ((p, 80) ∷ cs) fs) (Allocated cs fs) (alloc_lines n m1) _
            (alloc_lines-InOrder n ((p, 80) ∷ cs) fs m1 h1)
            (λ (ps, ls, m2) (narrow, h2). (
              (new_line-bound p m1.bytes, narrow),
              InOrder-front p 80 (line_claims ps) cs fs m2 h2,
            )))
    ])

pub free_lines-InOrder :
    (ps : List ℕ) (cs : List (ℕ × ℕ)) (fs : Fs) (m : Memory)
    → InOrder (line_claims ps ++ cs) fs m
    → (m' : Memory) × (free_lines ps m ≡ some m') × InOrder cs fs m'
unfolding free_lines Option.bind
free_lines-InOrder [] cs fs m h = (m, refl, h)
free_lines-InOrder (p ∷ ps) cs fs m h =
    let (m1, freed, h1, same) = release p 80 (line_claims ps ++ cs) fs m h in
    let (m2, rest, h2) = free_lines-InOrder ps cs fs m1 h1 in
    (m2, rw (free_data-kfree p m, freed) rest, h2)

abbrev pub EditorSound : List (ℕ × ℕ) → Editor × System → Type 0
EditorSound cs (e, s) = Small e × Sound cs s

load-Sound :
    (i : ℕ) (ls : List (List ℕ)) (cs : List (ℕ × ℕ)) (s : System)
    → Narrow ls
    → Sound cs s
    → Whenever (EditorSound cs) (load i ls s)
unfolding load fs_get_size Option.bind
load-Sound i ls cs s n h =
    let size = (file_at s.fs i).size in
    let small : size ≤ fs_max_filesize = Bounded-get i s.fs.file_table h.bounded in
    let sum : add32 size 1 ≡ size + 1 = omega arith in
    let (p, m, got, h1, same) =
      allocate (size + 1) cs s.fs s.memory (omega arith) (omega arith) h.heap in
    rw (sum, got)
      (elim (Bool-cases (p == null)) [
        | inl nothing ↦ rw nothing (
          start-Small 1 ls (omega arith) n,
          memory-Sound cs cs m s h (forget p (size + 1) cs s.fs m h1),
        )
        | inr set_ptr ↦
            let fits : leb (size + 1) (room p m) ≡ true =
              le→leb _ _ (held_room p (size + 1) cs s.fs m (λ e. ground (arith, e, set_ptr)) h1) in
            rw (set_ptr, fits)
              (let read = fs_read (some i) p size 0 s.fs m in
                let b = update read.1.bytes (p + size) 0 in
                let (m2, freed, h2, same2) =
                  release p (size + 1) cs s.fs (record read.1 { bytes = b })
                    (InOrder-bytes _ s.fs read.1 b (read-InOrder i p size _ s.fs m h1)) in
                Whenever-bind Loaded (EditorSound cs) (load_lines 100 0 (string_at size p b) ls) _
                  (load_lines-Narrow 100 0 (string_at size p b) ls (omega arith) n)
                  (λ (num, ls') (few, n').
                    rw freed (start-Small num ls' few n', memory-Sound cs cs m2 s h h2)))
      ])

pub open_file-Sound :
    (filename : CString) (ls : List (List ℕ)) (cs : List (ℕ × ℕ)) (s : System)
    → Narrow ls
    → Sound cs s
    → Whenever (EditorSound cs) (open_file filename ls s)
unfolding open_file
open_file-Sound filename ls cs s n h = elim (Option-cases (fs_open filename s.fs)) [
  | inl miss ↦ rw (miss, open_file) (start-Small 1 ls (omega arith) n, h)
  | inr (i, found) ↦
      rw (found, open_file)
        (elim (Bool-cases (ltb 0 (fs_get_size (some i) s.fs))) [
          | inl some_bytes ↦ rw some_bytes (load-Sound i ls cs s n h)
          | inr empty ↦ rw empty (start-Small 1 ls (omega arith) n, h)
        ])
]

save_to-Sound :
    (filename : CString) (p size : ℕ) (e : Editor) (cs : List (ℕ × ℕ)) (s : System)
    → Small e
    → Sound cs s
    → Whenever (EditorSound cs) (save_to filename p size e s)
unfolding save_to fs_open
save_to-Sound filename p size e cs s n h = elim (Option-cases (fs_find filename s.fs)) [
  | inl miss ↦ rw (miss, save_to) (n, h)
  | inr (i, found) ↦
      let inside = find-inside filename i s.fs found in
      let (code, f, m, run, name, flags, small, stores, h1) =
        fs_write-Rewrites i p size cs s.fs s.memory inside h.heap in
      let bound : f.size ≤ fs_max_filesize = elim small [
        | inl same ↦ omega (arith, same, Bounded-get i s.fs.file_table h.bounded)
        | inr less ↦ less
      ] in
      rw (found, save_to)
        (rw run (
          n,
          files-Sound cs (write_file i f s.fs) m s h (IsValid-same i s.fs f name flags h.valid)
              (Bounded-set i s.fs.file_table f bound h.bounded) h1,
        ))
]

pub save-Sound :
    (filename : CString) (e : Editor) (cs : List (ℕ × ℕ)) (s : System)
    → Small e
    → Sound cs s
    → Whenever (EditorSound cs) (save filename e s)
unfolding save Option.bind
save-Sound filename e cs s n h =
    let small = Small-total e n in
    let size = total_size e.num_lines 0 e.lines + 1 in
    let (p, m, got, h1, same) = allocate size cs s.fs s.memory (omega arith) (omega arith) h.heap in
    rw got (elim (Bool-cases (p == null)) [
      | inl nothing ↦ rw nothing (n, memory-Sound cs cs m s h (forget p size cs s.fs m h1))
      | inr set_ptr ↦
          let fits : leb size (room p m) ≡ true =
            le→leb _ _ (held_room p size cs s.fs m (λ e. ground (arith, e, set_ptr)) h1) in
          rw (set_ptr, fits)
            (Whenever-bind (λ _. Unit) (EditorSound cs)
              (join_lines e.num_lines 0 e.lines (set (string_at size p m.bytes) 0 0)) _
              (Whenever-any _)
              (λ content _.
                let m1 = record m { bytes = store p content m.bytes } in
                let s1 = record s { memory = m1 } in
                let ds = (p, size) ∷ cs in
                Whenever-bind (EditorSound ds) (EditorSound cs)
                  (save_to filename p (strlen content) e s1) _
                  (save_to-Sound filename p (strlen content) e ds s1 n
                    (memory-Sound cs ds m1 s h (InOrder-bytes ds s.fs m _ h1)))
                  (λ (e', s') (n', h').
                    let (m', freed, h2, same2) = release p size cs s'.fs s'.memory h'.heap in
                    rw freed (n', memory-Sound ds cs m' s' h' h2))))
    ])
