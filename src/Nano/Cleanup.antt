-- ===== src/Nano/Cleanup.antt =====
-- The cleanup of the editor of src/kernel/shell.c frees its blocks.
use kontol_os.Base.{ℕ, ◌≡◌, refl, ◌∙◌, Option, some, List, [], ◌∷◌, ◌++◌}
use mathlib.Core.Option
use kontol_os.Memory.{Memory}
use kontol_os.Memory.Block.{Blocks}
use kontol_os.Memory.Layout.{Represents}
use kontol_os.Memory.Claims.{Claims}
use kontol_os.Memory.Drops.{Drops, Drops-both, kfree-Drops}
use kontol_os.Ramfs.Claims.{free_data-kfree}
use kontol_os.Screen.{clear, ink, white}
use kontol_os.Shell.System.{System, Outcome, returned, draw, finish}
use kontol_os.Nano.Storage.{free_lines}
use kontol_os.Nano.Loop.{leave}
use kontol_os.Nano.Sound.{line_claims}

-- The loop over the lines takes out their blocks.
free_lines-Drops :
    (ps : List ℕ) {m : Memory} (bs : Blocks) (cs : List (ℕ × ℕ))
    → Represents m bs
    → Claims bs (line_claims ps ++ cs)
    → (m' : Memory) × (bs' : Blocks) × (free_lines ps m ≡ some m')
      × Represents m' bs'
      × Claims bs' cs
      × (m'.bytes ≡ m.bytes)
      × Drops ps bs bs'
unfolding free_lines Option.bind
free_lines-Drops [] {m} bs cs r h =
    (m, bs, refl, r, h, refl, λ q t. (λ uses. (uses, tt), λ (uses, done). uses))
free_lines-Drops (p ∷ ps) {m} bs cs r h =
    let (m1, bs1, freed, r1, h1, same1, first) = kfree-Drops p 80 bs (line_claims ps ++ cs) r h in
    let (m2, bs2, rest, r2, h2, same2, then) = free_lines-Drops ps bs1 cs r1 h1 in
    (
      m2,
      bs2,
      rw (free_data-kfree p m, freed) rest,
      r2,
      h2,
      same2 ∙ same1,
      Drops-both (p ∷ []) ps bs bs1 bs2 first then,
    )

-- What the cleanup comes to.
abbrev pub Leaves : ℕ → List ℕ → List (ℕ × ℕ) → Blocks → System → Option Outcome → Type 0
Leaves table ps cs bs s r =
    (m : Memory) × (bs' : Blocks) × (r
      ≡ some (returned (draw (clear ∷ ink white ∷ []) (record s { memory = m }))))
    × Represents m bs'
    × Claims bs' cs
    × (m.bytes ≡ s.memory.bytes)
    × Drops (ps ++ (table ∷ [])) bs bs'

-- Where each line of the editor and its table are NULL or blocks of their own in a heap in order, the cleanup
-- ends and clears the screen. Then exactly these blocks are no longer in use: every other block in use
-- keeps its place and its size, no new one is, what others hold stays theirs, and no byte changes.
pub leave-Leaves :
    (table : ℕ) (ps : List ℕ) (cs : List (ℕ × ℕ)) (bs : Blocks) (s : System)
    → Represents s.memory bs
    → Claims bs (line_claims ps ++ ((table, 400) ∷ cs))
    → Leaves table ps cs bs s (leave table ps s)
unfolding leave finish Option.bind
leave-Leaves table ps cs bs s r h =
    let (m1, bs1, lines, r1, h1, same1, first) = free_lines-Drops ps bs ((table, 400) ∷ cs) r h in
    let (m2, bs2, freed, r2, h2, same2, then) = kfree-Drops table 400 bs1 cs r1 h1 in
    (
      m2,
      bs2,
      rw (lines, freed) refl,
      r2,
      h2,
      same2 ∙ same1,
      Drops-both ps (table ∷ []) bs bs1 bs2 first then,
    )
