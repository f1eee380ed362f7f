-- ===== src/Kernel/Boot.antt =====
-- The boot of src/kernel/kernel.c leaves the system in order.
use kontol_os.Base.{
  ℕ, ◌≤◌, ◌≡◌, ◌≢◌, refl, sym, ap, subst, inl, false, Bool, some, List, [], ◌∷◌, arith,
}
use mathlib.Core.Option
use kontol_os.Memory.{Memory, null, memory_init, heap_size}
use kontol_os.Memory.Block.{Blocks, block}
use kontol_os.Memory.Layout.{Represents, memory_init-Represents}
use kontol_os.Memory.Claims.{Claims, Apart-null}
use kontol_os.Ramfs.{File, Fs, fs_init, clear_table, clear_entry}
use kontol_os.Ramfs.Start.{fs_init-IsValid}
use kontol_os.Ramfs.Claims.{InOrder, claims}
use kontol_os.Ramfs.Same.{Bounded}
use kontol_os.Timer.{timer_init, start_timer}
use kontol_os.Timer.Sleep.{timer_count}
use kontol_os.Keyboard.{keyboard_init}
use kontol_os.Keyboard.Queue.{keyboard_init-Queued}
use kontol_os.Vga.{vga_init}
use kontol_os.Vga.Cursor.{IsOnScreen}
use kontol_os.Interrupts.{idt_init, irq_register_handler}
use kontol_os.Interrupts.Gates.{idt_init-Untouched}
use kontol_os.Screen.Calls.{calls-Keeps}
use kontol_os.Screen.{Call, say, ink, clear, light_grey, light_green, white}
use kontol_os.Shell.System.{System, draw}
use kontol_os.Shell.Sound.{IsSound, draw-Sound}
use kontol_os.Kernel.{
  Machine, on_system, print_all, tick_system, key_system, start_clock, start_keyboard, init_system,
  kernel_main, step_done,
}
use kontol_os.Kernel.Early.{Declared, Early, draw-Early, show_splash_screen-Early}

pub cleared-Claims : (bs : Blocks) (fs : List File) → Claims bs (claims (clear_table fs) [])
unfolding clear_table clear_entry
cleared-Claims bs [] = tt
cleared-Claims bs (f ∷ fs) =
    (inl refl, Apart-null null (claims (clear_table fs) []) refl, cleared-Claims bs fs)

pub cleared-Bounded : (fs : List File) → Bounded (clear_table fs)
unfolding clear_table clear_entry
cleared-Bounded [] = tt
cleared-Bounded (f ∷ fs) = (omega arith, cleared-Bounded fs)

pub fs_init-InOrder :
    (fs : Fs) (m : Memory) → Represents m (block heap_size false ∷ []) → InOrder [] (fs_init fs) m
unfolding fs_init
fs_init-InOrder fs m r = (_, r, cleared-Claims _ fs.file_table)

pub fs_init-Bounded : (fs : Fs) → Bounded (fs_init fs).file_table
unfolding fs_init
fs_init-Bounded fs = cleared-Bounded fs.file_table

-- Both handlers are registered.
abbrev pub IsWired : Machine → Type 0
IsWired s = (s.irq_handlers 0 ≡ some tick_system) × (s.irq_handlers 1 ≡ some key_system)

-- timer_init at 100 Hz.
start_clock-Early :
    (s : Machine)
    → Declared s.drivers
    → IsOnScreen s.drivers.vga
    → (s' : Machine) × (start_clock 100 s ≡ some s')
      × Early s'.drivers
      × (s'.drivers.timer.timer_ticks ≡ 0)
      × (s'.irq_handlers 0 ≡ some tick_system)
unfolding start_clock timer_init start_timer irq_register_handler
start_clock-Early s dec on = (
  _,
  refl,
  record {
    declared = record {
      slots = dec.slots;
      names = dec.names;
      dir = dec.dir;
      line = dec.line;
      stack = dec.stack;
    };
    screen = on;
    clock = refl;
  },
  refl,
  refl,
)

-- The heap is one free block, the arrays have their sizes, and the cursor is on the screen.
record Ready (d : System) : Type 0 where
  declared : Declared d
  heap : Represents d.memory (block heap_size false ∷ [])
  screen : IsOnScreen d.vga

draw-Ready : (cs : List Call) (d : System) → Ready d → Ready (draw cs d)
unfolding draw
draw-Ready cs d r = record {
  declared = record {
    slots = r.declared.slots;
    names = r.declared.names;
    dir = r.declared.dir;
    line = r.declared.line;
    stack = r.declared.stack;
  };
  heap = r.heap;
  screen = (calls-Keeps cs d.vga r.screen).0;
}

memory_init-Ready : (d : System) → Early d → Ready (record d { memory = memory_init d.memory })
memory_init-Ready d e = record {
  declared = record {
    slots = e.declared.slots;
    names = e.declared.names;
    dir = e.declared.dir;
    line = e.declared.line;
    stack = e.declared.stack;
  };
  heap = memory_init-Represents d.memory;
  screen = e.screen;
}

-- timer_init at 100 Hz, the second time.
start_clock-Ready :
    (s : Machine)
    → Ready s.drivers
    → (s' : Machine) × (start_clock 100 s ≡ some s')
      × Ready s'.drivers
      × (s'.drivers.timer.timer_frequency ≢ 0)
      × (s'.irq_handlers 0 ≡ some tick_system)
unfolding start_clock timer_init start_timer irq_register_handler
start_clock-Ready s r = (
  _,
  refl,
  record {
    declared = record {
      slots = r.declared.slots;
      names = r.declared.names;
      dir = r.declared.dir;
      line = r.declared.line;
      stack = r.declared.stack;
    };
    heap = r.heap;
    screen = r.screen;
  },
  λ e. omega arith,
  refl,
)

-- The keyboard and the file system, once the clock runs.
late : Machine → Machine
late s =
    let s1 = print_all step_done (
      start_keyboard
        (print_all (say "[*] Initializing keyboard... " ∷ []) (print_all step_done s))) in
    print_all step_done (
      on_system (λ d. record d { fs = fs_init d.fs })
        (print_all (say "[*] Initializing filesystem... " ∷ []) s1))

late-Sound :
    (s : Machine)
    → Ready s.drivers
    → s.drivers.timer.timer_frequency ≢ 0
    → s.irq_handlers 0 ≡ some tick_system
    → IsSound (late s).drivers × IsWired (late s)
unfolding late start_keyboard irq_register_handler draw
late-Sound s r clock tick =
    let cs = say "[*] Initializing keyboard... " ∷ [] in
    let ds = say "[*] Initializing filesystem... " ∷ [] in
    let d1 = draw cs (draw step_done s.drivers) in
    let r1 : Ready d1 = draw-Ready cs _ (draw-Ready step_done s.drivers r) in
    let d2 = draw ds (draw step_done (record d1 { keyboard = keyboard_init d1.keyboard })) in
    let on : IsOnScreen d2.vga = (calls-Keeps ds _ (calls-Keeps step_done d1.vga r1.screen).0).0 in
    (
      draw-Sound [] step_done (record d2 { fs = fs_init d2.fs })
          (record {
            valid = (fs_init-IsValid d1.fs r1.declared.slots r1.declared.dir r1.declared.names).0;
            heap = fs_init-InOrder d1.fs d1.memory r1.heap;
            bounded = fs_init-Bounded d1.fs;
            screen = on;
            clock = clock;
            ring = ([], keyboard_init-Queued d1.keyboard);
            line = r1.declared.line;
            stack = r1.declared.stack;
          }),
      (tick, refl),
    )

-- The screen is cleared first.
cleared-Early :
    (s : Machine)
    → Declared s.drivers
    → Declared
        (print_all (clear ∷ []) (on_system (λ d. record d { vga = vga_init d.vga }) s)).drivers
      × IsOnScreen
          (print_all
            (clear ∷ [])
            (on_system (λ d. record d { vga = vga_init d.vga }) s)).drivers.vga
unfolding draw vga_init
cleared-Early s dec = (
  record {
    slots = dec.slots;
    names = dec.names;
    dir = dec.dir;
    line = dec.line;
    stack = dec.stack;
  },
  (calls-Keeps (clear ∷ []) (vga_init s.drivers.vga) (omega arith, omega arith)).0,
)

module _ (isr irq : ℕ → ℕ) (mask1 mask2 : ℕ) where
  init_system-Sound :
      (s : Machine)
      → Early s.drivers
      → (s' : Machine) × (init_system isr irq mask1 mask2 s ≡ some s')
        × IsSound s'.drivers
        × IsWired s'
  unfolding init_system late draw
  init_system-Sound s e =
      let e0 = draw-Early (ink light_grey ∷ say "[*] Initializing memory manager... " ∷ []) _ e in
      let r1 = draw-Ready step_done _ (memory_init-Ready _ e0) in
      let cs = say "[*] Setting up IDT... " ∷ [] in
      let ds = say "[*] Initializing timer... " ∷ [] in
      let s1 : Machine = print_all cs (
        print_all step_done (
          on_system (λ d. record d { memory = memory_init d.memory })
            (print_all (ink light_grey ∷ say "[*] Initializing memory manager... " ∷ []) s))) in
      let (same, handlers) = idt_init-Untouched isr irq mask1 mask2 s1 in
      let r2 : Ready (idt_init isr irq mask1 mask2 s1).drivers =
        subst Ready (sym same) (draw-Ready cs _ r1) in
      let s2 = print_all ds (print_all step_done (idt_init isr irq mask1 mask2 s1)) in
      let r3 : Ready s2.drivers = draw-Ready ds _ (draw-Ready step_done _ r2) in
      let (s3, run, r4, clock, tick) = start_clock-Ready s2 r3 in
      let (sound, wired) = late-Sound s3 r4 clock tick in
      (late s3, ap (Option.map late) run, sound, wired)

  -- With the arrays as declared and 341 timer interrupts during the splash screen, kernel_main comes to
  -- the shell. Then the system is in order, and the handlers of the timer and of the keyboard are registered.
  pub kernel_main-Sound :
      (irqs : List Bool) (s : Machine)
      → Declared s.drivers
      → 341 ≤ timer_count irqs
      → (s' : Machine) × (kernel_main isr irq mask1 mask2 irqs s ≡ some s')
        × IsSound s'.drivers
        × IsWired s'
  unfolding kernel_main Option.bind draw vga_init
  kernel_main-Sound irqs s dec enough =
      let cs =
        ink light_green
        ∷ say "\n[+] System initialization complete!\n"
        ∷ ink white
        ∷ say "[*] Starting shell...\n\n"
        ∷ [] in
      let s0 : Machine =
        print_all (clear ∷ []) (on_system (λ d. record d { vga = vga_init d.vga }) s) in
      let (same, handlers) = idt_init-Untouched isr irq mask1 mask2 s0 in
      let (dec1, on1) =
        subst (λ d. Declared d × IsOnScreen d.vga) (sym same) (cleared-Early s dec) in
      let (s2, run2, e2, zero_ticks, tick) =
        start_clock-Early (idt_init isr irq mask1 mask2 s0) dec1 on1 in
      let (d, rest, run3, e3) = show_splash_screen-Early irqs s2.drivers e2 zero_ticks enough in
      let (s4, run4, sound, wired) = init_system-Sound (record s2 { drivers = d }) e3 in
      (print_all cs s4, rw (run2, run3, run4) refl, draw-Sound [] cs s4.drivers sound, wired)
