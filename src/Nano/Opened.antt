-- ===== src/Nano/Opened.antt =====
-- A file that the editor of src/kernel/shell.c loads, down to its bytes.
use kontol_os.Base.{ℕ, ◌+◌, ◌≡◌, ◌≢◌, ◌⊎◌, false, Option, some, List, []}
use mathlib.Core.Option
use kontol_os.Bytes.{Bytes}
use kontol_os.Memory.{Memory, kmalloc, null}
use kontol_os.Ramfs.{file_at}
use kontol_os.Ramfs.Claims.{InOrder}
use kontol_os.Shell.System.{System}
use kontol_os.Nano.{Editor}
use kontol_os.Nano.Page.{Page, Shows}
use kontol_os.Nano.Storage.{start}

-- The lines with the cursor at the start of the first.
abbrev pub opened : List ℕ → List (List ℕ) → Page
opened t ts = record { above = []; left = []; right = t; below = ts }

-- What loading comes to, where kmalloc gives `q` for the content and a NUL.
abbrev pub Opens :
    ℕ
    → List ℕ
    → List (List ℕ)
    → List (List ℕ)
    → List (ℕ × ℕ)
    → System
    → Option (Editor × System)
    → Type 0
Opens i t ts ls cs s r =
    (q : ℕ) × (m : Memory) × (e : Editor) × (m' : Memory) × (kmalloc ((file_at s.fs i).size + 1)
        s.memory
      ≡ some (q, m))
    × (r ≡ some (e, record s { memory = m' }))
    × InOrder cs s.fs m'
    × ((q ≡ null) × (e ≡ start 1 ls) ⊎ (q ≢ null) × (e.modified ≡ false) × Shows e (opened t ts))
