-- ===== src/Shell/Power.antt =====
-- The commands of src/kernel/shell.c that stop the machine: reboot, halt, shutdown.
use kontol_os.Base.{ℕ, bit_and, Option, none, some, List, [], ◌∷◌, if◌then◌else◌, ◌==◌}
use mathlib.Core.Option
use kontol_os.Screen.{say, ink, light_cyan, light_grey, light_brown}
use kontol_os.Shell.System.{returned, halted, Handler, draw, out}

-- `while (good & 0x02) good = inb(0x64);` from a read on; `none` while the controller is still busy.
unfoldable pub wait_ready : List ℕ → Option (List ℕ)
wait_ready [] = none
wait_ready (good ∷ status) =
    let rest = wait_ready status in if bit_and good 0x02 == 0 then some status else rest

-- The `halt` at the end returns with the next interrupt, and so does the command.
unfoldable pub cmd_reboot : Handler
cmd_reboot argv s =
    let s1 = draw (say "Rebooting system...\n" ∷ []) s in
    Option.map (λ rest. returned (out 0x64 0xfe (record s1 { status = rest })))
      (wait_ready s1.status)

unfoldable pub cmd_halt : Handler
cmd_halt argv s = some (
    halted (
      draw (ink light_brown ∷ say "\nSystem halted. You may now turn off your computer.\n" ∷ []) s))

-- The last lines run when no port took the machine's power.
unfoldable pub cmd_shutdown : Handler
cmd_shutdown argv s =
    let s1 =
      draw
        (ink light_cyan
          ∷ say "\nShutting down KontolOS...\n"
          ∷ ink light_grey
          ∷ say "Goodbye!\n\n"
          ∷ [])
        s in
    let s2 = out 0x4004 0x3400 (out 0xb004 0x2000 (out 0x604 0x2000 s1)) in
    some (
      halted (
        draw
          (ink light_brown
            ∷ say "ACPI power off not supported. System halted.\n"
            ∷ say "You may now turn off your computer manually.\n"
            ∷ [])
          s2))
