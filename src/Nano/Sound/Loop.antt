-- ===== src/Nano/Sound/Loop.antt =====
-- The main loop of the editor of src/kernel/shell.c keeps the system in order.
use kontol_os.Base.{
  ℕ, zero, suc, ◌+◌, ◌≡◌, refl, sym, subst, inl, inr, Option, some, List, [], ◌∷◌, ◌++◌, arith,
  ◌==◌, Bool-cases, Option-cases, length, Whenever, Whenever-bind, Whenever-if,
}
use mathlib.Core.Option
use kontol_os.CString.{CString}
use kontol_os.Memory.{null}
use kontol_os.Ramfs.{fs_exists, fs_create}
use kontol_os.Ramfs.Create.{fs_create-Creates}
use kontol_os.Ramfs.Claims.{allocate, release, forget}
use kontol_os.Keyboard.{Keyboard, keyboard_getchar}
use kontol_os.Keyboard.Queue.{Queued}
use kontol_os.Keyboard.Reads.{keyboard_getchar-Gets}
use kontol_os.Shell.System.{System, Outcome, draw, second}
use kontol_os.Shell.Sound.{
  Sound, IsSound, After, Runs, draw-Sound, memory-Sound, files-Sound, finish-Runs,
}
use kontol_os.Shell.Sound.Files.{Creates-Returns}
use kontol_os.Nano.{Editor, press, clamp}
use kontol_os.Nano.Storage.{alloc_lines, open_file, save}
use kontol_os.Nano.Loop.{screen_calls, nano_loop, ensure_file, leave, run_nano, nano_file, cmd_nano}
use kontol_os.Nano.Sizes.{Small, press-Small}
use kontol_os.Nano.Sound.{
  line_claims, Allocated, alloc_lines-InOrder, free_lines-InOrder, EditorSound, open_file-Sound,
  save-Sound,
}

-- A character, with the ring in order.
abbrev Typed : ℕ × Keyboard × List ℕ → Type 0
Typed (c, k, rest) = (q : List ℕ) × Queued k q

getchar-Typed :
    (arriving : List ℕ) (k : Keyboard) (q : List ℕ)
    → Queued k q
    → Whenever Typed (keyboard_getchar arriving k)
getchar-Typed arriving k q h = elim (keyboard_getchar-Gets arriving k q h) [
  | inl waits ↦ subst (Whenever Typed) (sym waits) tt
  | inr (c, k', rest, q', got, h', less) ↦ subst (Whenever Typed) (sym got) (q', h')
]

typed-Sound :
    (cs : List (ℕ × ℕ)) (k : Keyboard) (rest : List ℕ) (s : System) (q : List ℕ)
    → Sound cs s
    → Queued k q
    → Sound cs (record s { keyboard = k; arriving = rest })
typed-Sound cs k rest s q h ring = record {
  valid = h.valid;
  heap = h.heap;
  bounded = h.bounded;
  screen = h.screen;
  clock = h.clock;
  ring = (q, ring);
  line = h.line;
  stack = h.stack;
}

clamp-Small : (e : Editor) → Small e → Small (clamp e)
unfolding clamp
clamp-Small e h = h

nano_loop-Sound :
    (fuel : ℕ) (filename : CString) (e : Editor) (cs : List (ℕ × ℕ)) (s : System)
    → Small e
    → Sound cs s
    → Whenever (EditorSound cs) (nano_loop fuel filename e s)
unfolding nano_loop draw
nano_loop-Sound zero filename e cs s n h = tt
nano_loop-Sound (suc fuel) filename e cs s n h =
    let ds = screen_calls filename s.shape e in
    let s1 = draw ds s in
    let (q, ring) = h.ring in
    Whenever-bind Typed (EditorSound cs) (keyboard_getchar s.arriving s.keyboard) _
      (getchar-Typed s.arriving s.keyboard q ring)
      (λ (c, k, rest) (q', ring').
        let s2 = record s1 { keyboard = k; arriving = rest } in
        let h2 : Sound cs s2 = typed-Sound cs k rest s1 q' (draw-Sound cs ds s h) ring' in
        Whenever-if (EditorSound cs) (c == 19) _ _
          (λ saves.
            Whenever-bind (EditorSound cs) (EditorSound cs) (save filename e s2) _
              (save-Sound filename e cs s2 n h2)
              (λ (e', s3) (n', h3).
                nano_loop-Sound fuel filename (clamp e') cs s3 (clamp-Small e' n') h3))
          (λ edits.
            Whenever-if (EditorSound cs) (c == 24) _ _ (λ leaves. (clamp-Small e n, h2))
              (λ other.
                Whenever-bind Small (EditorSound cs) (press c e) _ (press-Small c e n)
                  (λ e' n'. nano_loop-Sound fuel filename e' cs s2 n' h2))))

leave-After :
    (table : ℕ) (ps : List ℕ) (s : System)
    → Sound (line_claims ps ++ ((table, 400) ∷ [])) s
    → Runs (leave table ps s)
unfolding leave Option.bind
leave-After table ps s h =
    let (m1, freed, h1) = free_lines-InOrder ps ((table, 400) ∷ []) s.fs s.memory h.heap in
    let (m2, freed2, h2, same) = release table 400 [] s.fs m1 h1 in
    rw (freed, freed2) (finish-Runs _ (record s { memory = m2 }) (memory-Sound _ [] m2 s h h2))

Runs-Whenever : (r : Option Outcome) → Runs r → Whenever After r
Runs-Whenever r (o, e, h) = subst (Whenever After) (sym e) h

run_nano-After :
    (filename : CString) (table : ℕ) (s : System)
    → Sound ((table, 400) ∷ []) s
    → Whenever After (run_nano filename table s)
unfolding run_nano
run_nano-After filename table s h =
    let cs = (table, 400) ∷ [] in
    Whenever-bind (Allocated cs s.fs) After (alloc_lines 100 s.memory) _
      (alloc_lines-InOrder 100 cs s.fs s.memory h.heap)
      (λ (ps, ls, m) (n, h1).
        let ds = line_claims ps ++ cs in
        Whenever-bind (EditorSound ds) After (open_file filename ls (record s { memory = m })) _
          (open_file-Sound filename ls ds _ n (memory-Sound cs ds m s h h1))
          (λ (e, s1) (n1, h2).
            Whenever-bind (EditorSound ds) After
              (nano_loop (256 + length s1.arriving) filename e s1) _
              (nano_loop-Sound (256 + length s1.arriving) filename e ds s1 n1 h2)
              (λ (e', s2) (n2, h3). Runs-Whenever _ (leave-After table ps s2 h3))))

ensure_file-Sound :
    (filename : CString) (s : System)
    → IsSound s
    → (s' : System) × (ensure_file filename s ≡ some s') × IsSound s'
unfolding ensure_file
ensure_file-Sound filename s h = elim (Bool-cases (fs_exists filename s.fs)) [
  | inl there ↦ (s, rw there refl, h)
  | inr missing ↦
      let (code, fs, e, valid, bounded, heap) =
        Creates-Returns _ filename s (fs_create (some filename) s.fs) h
          (fs_create-Creates filename h.valid) in
      (
        record s { fs = fs },
        rw (missing, e) refl,
        files-Sound [] fs s.memory s h valid bounded heap,
      )
]

-- When a run of the editor in the model returns, the file table is valid, and the heap is in order with a
-- block of its own for each file.
pub cmd_nano-After :
    (argv : List CString) (s : System) → IsSound s → Whenever After (cmd_nano argv s)
unfolding cmd_nano nano_file Option.bind
cmd_nano-After argv s h = elim (Option-cases (second argv)) [
  | inl usage ↦ rw (usage, cmd_nano) (Runs-Whenever _ (finish-Runs _ s h))
  | inr (filename, given) ↦
      let (s1, ready, h1) = ensure_file-Sound filename s h in
      let (table, m, got, heap, same) =
        allocate 400 [] s1.fs s1.memory (omega arith) (omega arith) h1.heap in
      rw (given, cmd_nano)
        (rw (ready, got)
          (elim (Bool-cases (table == null)) [
            | inl nothing ↦ rw nothing (
                Runs-Whenever _ (
                  finish-Runs _ (record s1 { memory = m })
                    (memory-Sound [] [] m s1 h1 (forget table 400 [] s1.fs m heap))))
            | inr set_ptr ↦ rw set_ptr (
                run_nano-After filename table (record s1 { memory = m })
                  (memory-Sound [] ((table, 400) ∷ []) m s1 h1 heap))
          ]))
]
