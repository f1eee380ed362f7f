-- ===== src/Kernel.antt =====
-- The entry of the kernel, src/kernel/kernel.c: the splash screen, the initialization of the components in
-- their order, and kernel_main up to the shell; the panic, and isr_handler of src/kernel/idt.c.
--
-- The state is that of the dispatch (src/kernel/idt.c) over the system of the shell. `halt` during the
-- splash screen returns after an interrupt: `irqs` are those that arrive, `true` for the timer's.
pub mod Panic
pub mod Early
pub mod Boot
mod Tests
use Prim.Native.String.{String}
use kontol_os.Base.{
  ℕ, zero, suc, ◌+◌, ◌*◌, ◌/◌, ◌%◌, Bool, Option, none, some, List, [], ◌∷◌, ◌++◌, if◌then◌else◌,
  ◌==◌, leb,
}
use mathlib.Core.Option
use kontol_os.CString.{CString}
use kontol_os.Memory.{memory_init}
use kontol_os.Ramfs.{fs_init}
use kontol_os.Keyboard.{keyboard_init, keyboard_handler}
use kontol_os.Timer.{Timer, timer_init, timer_handler, timer_sleep_ms}
use kontol_os.Vga.{vga_init}
use kontol_os.Interrupts.{Interrupts, idt_init, irq_register_handler}
use kontol_os.Screen.{
  Call, set_color, clear, hide_cursor, show_cursor, put_at, print_centered, say, ink, codes, white,
  light_cyan, light_grey, dark_grey, light_green,
}
use kontol_os.Shell.System.{System, draw}

abbrev pub Machine : Type 0
Machine = Interrupts System

abbrev pub on_system : (System → System) → Machine → Machine
on_system f s = record s { drivers = f s.drivers }

abbrev pub print_all : List Call → Machine → Machine
print_all cs s = on_system (draw cs) s

-- The handlers that timer_init and keyboard_init register. The first scancode to come is what the data
-- port of the controller reads as.
abbrev pub tick_system : System → System
tick_system s = record s { timer = timer_handler s.timer }

unfoldable pub key_system : System → System
key_system s = elim s.arriving [
  | [] ↦ s
  | scancode ∷ rest ↦ record s { keyboard = keyboard_handler scancode s.keyboard; arriving = rest }
]

-- `timer_init(frequency)`, with the registration of its handler.
unfoldable pub start_clock : ℕ → Machine → Option Machine
start_clock frequency s =
    Option.map (λ t. irq_register_handler 0 tick_system (on_system (λ d. record d { timer = t }) s))
      (timer_init frequency s.drivers.timer)

unfoldable pub start_keyboard : Machine → Machine
start_keyboard s =
    irq_register_handler 1 key_system
      (on_system (λ d. record d { keyboard = keyboard_init d.keyboard }) s)

-- The percentage as text.
unfoldable pub percent_string : ℕ → CString
percent_string percent =
    if percent == 100
    then codes "100%"
    else if leb 10 percent
    then (b'0' + percent / 10) ∷ (b'0' + percent % 10) ∷ b'%' ∷ []
    else (b'0' + percent) ∷ b'%' ∷ []

-- The logo, the texts, and the frame of the bar.
unfoldable pub splash_calls : List Call
splash_calls =
    hide_cursor
    ∷ ink white
    ∷ clear
    ∷ ink light_cyan
    ∷ print_centered 6 (codes "  _  __            _        _  ___  ____  ")
    ∷ print_centered 7 (codes " | |/ /___  _ __ | |_ ___ | |/ _ \\/ ___| ")
    ∷ print_centered 8 (codes " | ' // _ \\| '_ \\| __/ _ \\| | | | \\___ \\ ")
    ∷ print_centered 9 (codes " | . \\ (_) | | | | || (_) | | |_| |___) |")
    ∷ print_centered 10 (codes " |_|\\_\\___/|_| |_|\\__\\___/|_|\\___/|____/ ")
    ∷ ink light_grey
    ∷ print_centered 12 (codes "Version 0.1.0")
    ∷ ink dark_grey
    ∷ print_centered 14 (codes "An operating system based on sistem reproduksi")
    ∷ ink dark_grey
    ∷ put_at 20 19 b'['
    ∷ put_at 20 60 b']'
    ∷ ink white
    ∷ print_centered 22 (codes "Loading...")
    ∷ ink light_green
    ∷ []

-- A segment of the bar, and the percentage.
unfoldable pub segment_calls : ℕ → List Call
segment_calls i =
    put_at 20 (20 + i) b'#'
    ∷ ink white
    ∷ print_centered 22 (codes "            ")
    ∷ print_centered 22 (percent_string ((i + 1) * 100 / 40))
    ∷ ink light_green
    ∷ []

-- `timer_sleep_ms(ms)`; `none` while it still waits.
unfoldable pub sleep : ℕ → List Bool → System → Option (System × List Bool)
sleep ms irqs s =
    Option.map (λ (t, rest). (record s { timer = t }, rest)) (timer_sleep_ms ms irqs s.timer)

-- `n` rounds of the loop of the bar, from the segment `i` on.
unfoldable pub splash_loop : ℕ → ℕ → List Bool → System → Option (System × List Bool)
splash_loop zero i irqs s = some (s, irqs)
splash_loop (suc n) i irqs s =
    Option.bind (sleep 75 irqs (draw (segment_calls i) s))
      λ (s', rest). splash_loop n (i + 1) rest s'

unfoldable pub show_splash_screen : List Bool → System → Option (System × List Bool)
show_splash_screen irqs s = Option.bind (splash_loop 40 0 irqs (draw splash_calls s)) λ (s1, rest1).
    Option.bind (sleep 200 rest1 s1) λ (s2, rest2).
      let (read1, read2) = s2.shape in some (draw (clear ∷ show_cursor read1 read2 ∷ []) s2, rest2)

-- "OK" behind a step of init_system.
abbrev pub step_done : List Call
step_done = ink light_green ∷ say "OK\n" ∷ ink light_grey ∷ []

-- The addresses of the stubs, and the masks that the interrupt controllers hold.
module _ (isr irq : ℕ → ℕ) (mask1 mask2 : ℕ) where
  unfoldable pub init_system : Machine → Option Machine
  init_system s =
      let s1 = print_all step_done (
        on_system (λ d. record d { memory = memory_init d.memory })
          (print_all (ink light_grey ∷ say "[*] Initializing memory manager... " ∷ []) s)) in
      let s2 =
        print_all step_done
          (idt_init isr irq mask1 mask2 (print_all (say "[*] Setting up IDT... " ∷ []) s1)) in
      Option.map
        (λ s3.
          let s4 = print_all step_done (
            start_keyboard
              (print_all (say "[*] Initializing keyboard... " ∷ []) (print_all step_done s3))) in
          print_all step_done (
            on_system (λ d. record d { fs = fs_init d.fs })
              (print_all (say "[*] Initializing filesystem... " ∷ []) s4)))
        (start_clock 100 (print_all (say "[*] Initializing timer... " ∷ []) s2))

  -- kernel_main up to the call of shell_run.
  unfoldable pub kernel_main : List Bool → Machine → Option Machine
  kernel_main irqs s =
      let s1 =
        idt_init isr irq mask1 mask2
          (print_all (clear ∷ []) (on_system (λ d. record d { vga = vga_init d.vga }) s)) in
      Option.bind (start_clock 100 s1) λ s2.
        Option.bind (show_splash_screen irqs s2.drivers) λ (d, rest).
          Option.map
            (print_all (
              ink light_green
              ∷ say "\n[+] System initialization complete!\n"
              ∷ ink white
              ∷ say "[*] Starting shell...\n\n"
              ∷ []))
            (init_system (record s2 { drivers = d }))
