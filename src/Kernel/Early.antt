-- ===== src/Kernel/Early.antt =====
-- The splash screen of src/kernel/kernel.c ends, and leaves alone what is not yet initialized.
use kontol_os.Base.{
  ℕ, zero, suc, ◌+◌, ◌*◌, ◌^◌, ◌≤◌, ◌<◌, ◌≡◌, refl, ◌/◌, ap, Bool, Option, some, List, [], ◌∷◌,
  ◌++◌, arith, length,
}
use mathlib.Core.Option
use kontol_os.Ramfs.{fs_max_files, fs_max_filename}
use kontol_os.Ramfs.Start.{Sized}
use kontol_os.Timer.Sleep.{timer_count, timer_sleep_ms-Waits}
use kontol_os.Vga.Cursor.{IsOnScreen}
use kontol_os.Screen.{Call, clear, show_cursor}
use kontol_os.Screen.Calls.{calls-Keeps}
use kontol_os.Shell.System.{System, draw}
use kontol_os.Kernel.{sleep, splash_loop, segment_calls, splash_calls, show_splash_screen}

-- The static arrays have their declared sizes.
pub record Declared (d : System) : Type 0 where
  pub slots : length d.fs.file_table ≡ fs_max_files
  pub names : Sized d.fs.file_table
  pub dir : length d.fs.current_dir ≡ fs_max_filename
  pub line : length d.command_buffer ≡ 256
  pub stack : length d.stack ≡ 1024

-- Before the shell: the cursor is on the screen and the timer has its frequency.
pub record Early (d : System) : Type 0 where
  pub declared : Declared d
  pub screen : IsOnScreen d.vga
  pub clock : d.timer.timer_frequency ≡ 100

pub draw-Early : (cs : List Call) (d : System) → Early d → Early (draw cs d)
unfolding draw
draw-Early cs d e = record {
  declared = record {
    slots = e.declared.slots;
    names = e.declared.names;
    dir = e.declared.dir;
    line = e.declared.line;
    stack = e.declared.stack;
  };
  screen = (calls-Keeps cs d.vga e.screen).0;
  clock = e.clock;
}

draw-ticks : (cs : List Call) (d : System) → (draw cs d).timer.timer_ticks ≡ d.timer.timer_ticks
unfolding draw
draw-ticks cs d = refl

timer_count-append : (a b : List Bool) → timer_count (a ++ b) ≡ timer_count a + timer_count b
timer_count-append [] b = omega arith
timer_count-append (irq ∷ a) b = omega (arith, timer_count-append a b)

-- A wait of at most `n` timer interrupts, with the ticks so far below `t + n` and `m` interrupts to come.
abbrev pub Slept : ℕ → ℕ → ℕ → Option (System × List Bool) → Type 0
Slept n t m r =
    (d : System) × (rest : List Bool) × (r ≡ some (d, rest))
    × Early d
    × (d.timer.timer_ticks ≤ t + n)
    × (m ≤ timer_count rest)

sleep-Slept :
    (ms m : ℕ) (irqs : List Bool) (d : System)
    → Early d
    → ms ≤ 1000
    → d.timer.timer_ticks < 2 ^ 31
    → ms / 10 + 1 + m ≤ timer_count irqs
    → Slept (ms / 10 + 1) d.timer.timer_ticks m (sleep ms irqs d)
unfolding sleep
sleep-Slept ms m irqs d e short early enough =
    let freq = e.clock in
    let per : ms * d.timer.timer_frequency ≡ ms * 100 = ap (λ f. ms * f) freq in
    let (n, a, b, c, waits) =
      timer_sleep_ms-Waits ms irqs d.timer (omega (arith, per)) (omega (arith, per))
        (omega (arith, per)) in
    let (seen, left, all, count, run) = waits in
    let split = timer_count-append seen left in
    let total : timer_count irqs ≡ timer_count (seen ++ left) = ap timer_count all in
    (
      record d { timer = record d.timer { timer_ticks = d.timer.timer_ticks + n } },
      left,
      rw run refl,
      record {
        declared = record {
          slots = e.declared.slots;
          names = e.declared.names;
          dir = e.declared.dir;
          line = e.declared.line;
          stack = e.declared.stack;
        };
        screen = e.screen;
        clock = e.clock;
      },
      omega (arith, per, c),
      omega (arith, per, c, split, total, count),
    )

splash_loop-Slept :
    (n i m : ℕ) (irqs : List Bool) (d : System)
    → Early d
    → d.timer.timer_ticks + n * 8 < 2 ^ 30
    → n * 8 + m ≤ timer_count irqs
    → Slept (n * 8) d.timer.timer_ticks m (splash_loop n i irqs d)
unfolding splash_loop Option.bind draw
splash_loop-Slept zero i m irqs d e early enough = (d, irqs, refl, e, omega arith, omega arith)
splash_loop-Slept (suc n) i m irqs d e early enough =
    let d1 = draw (segment_calls i) d in
    let (d2, rest2, run2, e2, ticks2, left2) =
      sleep-Slept 75 (n * 8 + m) irqs d1 (draw-Early (segment_calls i) d e) (omega arith)
        (omega arith) (omega arith) in
    let (d3, rest3, run3, e3, ticks3, left3) =
      splash_loop-Slept n (i + 1) m rest2 d2 e2 (omega arith) left2 in
    (d3, rest3, rw run2 run3, e3, omega arith, left3)

-- With 341 timer interrupts to come, the splash screen ends.
pub show_splash_screen-Early :
    (irqs : List Bool) (d : System)
    → Early d
    → d.timer.timer_ticks ≡ 0
    → 341 ≤ timer_count irqs
    → (d' : System) × (rest : List Bool) × (show_splash_screen irqs d ≡ some (d', rest)) × Early d'
unfolding show_splash_screen Option.bind
show_splash_screen-Early irqs d e zero_ticks enough =
    let d0 = draw splash_calls d in
    let e0 = draw-Early splash_calls d e in
    let same = draw-ticks splash_calls d in
    let (d1, rest1, run1, e1, ticks1, left1) =
      splash_loop-Slept 40 0 21 irqs d0 e0 (omega (arith, same)) (omega arith) in
    let (d2, rest2, run2, e2, ticks2, left2) =
      sleep-Slept 200 0 rest1 d1 e1 (omega arith) (omega (arith, same)) (omega arith) in
    let cs = clear ∷ show_cursor d2.shape.0 d2.shape.1 ∷ [] in
    (draw cs d2, rest2, rw (run1, run2) refl, draw-Early cs d2 e2)
