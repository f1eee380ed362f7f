-- ===== src/Shell/Reports.antt =====
-- The commands of src/kernel/shell.c that print: help, clear, echo, info, uptime, memory, version, color,
-- pwd.
use Prim.Native.String.{String}
use kontol_os.Base.{
  ℕ, ◌+◌, ◌-◌, ◌*◌, ◌/◌, ◌%◌, ◌&&◌, ◌||◌, Option, none, some, List, [], ◌∷◌, ◌++◌, if◌then◌else◌,
  ◌==◌, ltb, leb, replicate, add32, sub32, mul32,
}
use mathlib.Core.Option
use kontol_os.CString.{CString, strlen}
use kontol_os.Memory.{memory_get_total, memory_get_used, memory_get_free}
use kontol_os.Ramfs.{fs_getcwd}
use kontol_os.Timer.{timer_get_uptime}
use kontol_os.Screen.{
  Call, print, print_dec, putchar, clear, say, ink, codes, to_int, light_cyan, white, light_green,
  dark_grey, light_grey,
}
use kontol_os.Shell.System.{Handler, finish, second}

-- The names and the descriptions of `commands`.
abbrev pub descriptions : List (String × String)
descriptions =
    ("help", "Display available commands")
    ∷ ("clear", "Clear the screen")
    ∷ ("echo", "Echo text to the screen")
    ∷ ("info", "Display system information")
    ∷ ("uptime", "Show system uptime")
    ∷ ("memory", "Display memory statistics")
    ∷ ("reboot", "Reboot the system")
    ∷ ("halt", "Halt the system")
    ∷ ("shutdown", "Power off the system")
    ∷ ("version", "Display OS version")
    ∷ ("color", "Change text color (0-15)")
    ∷ ("ls", "List files")
    ∷ ("cat", "Display file contents")
    ∷ ("touch", "Create empty file")
    ∷ ("rm", "Remove file")
    ∷ ("nano", "Edit file")
    ∷ ("mkdir", "Create directory")
    ∷ ("rmdir", "Remove directory")
    ∷ ("cd", "Change directory")
    ∷ ("pwd", "Print working directory")
    ∷ []

-- A round of the loop of cmd_help.
unfoldable pub help_line : CString → CString → List Call
help_line name description =
    ink light_green
    ∷ say "  "
    ∷ print name
    ∷ ink dark_grey
    ∷ (replicate (10 - strlen name) (putchar b' ')
        ++ (say " - " ∷ ink light_grey ∷ print description ∷ putchar 10 ∷ []))

unfoldable pub help_lines : List (String × String) → List Call
help_lines [] = []
help_lines ((name, description) ∷ ds) = help_line (codes name) (codes description) ++ help_lines ds

unfoldable pub cmd_help : Handler
cmd_help argv s =
    finish
      (ink light_cyan
        ∷ say "\nAvailable commands:\n"
        ∷ say "-------------------\n"
        ∷ ink white
        ∷ (help_lines descriptions ++ (ink white ∷ putchar 10 ∷ [])))
      s

unfoldable pub cmd_clear : Handler
cmd_clear argv s = finish (clear ∷ []) s

-- The loop of cmd_echo from the argument `i` on.
unfoldable pub echo_from : ℕ → List CString → List Call
echo_from i [] = []
echo_from i (a ∷ argv) =
    let rest = echo_from (i + 1) argv in
    (if ltb 1 i then putchar b' ' ∷ [] else []) ++ (print a ∷ rest)

unfoldable pub echo_calls : List CString → List Call
echo_calls [] = putchar 10 ∷ []
echo_calls (_ ∷ argv) = echo_from 1 argv ++ (putchar 10 ∷ [])

unfoldable pub cmd_echo : Handler
cmd_echo argv s = finish (echo_calls argv) s

unfoldable pub info_calls : ℕ → ℕ → ℕ → List Call
info_calls total free uptime =
    ink light_cyan
    ∷ say "\n=== System Information ===\n\n"
    ∷ ink white
    ∷ say "  OS Name:        KontolOS\n"
    ∷ say "  Version:        0.1.0\n"
    ∷ say "  Architecture:   x86 (32-bit)\n"
    ∷ say "  Author:         Built from scratch!\n"
    ∷ say "\n  Memory Total:   "
    ∷ print_dec (to_int (total / 1024))
    ∷ say " KB\n"
    ∷ say "  Memory Free:    "
    ∷ print_dec (to_int (free / 1024))
    ∷ say " KB\n"
    ∷ say "  Uptime:         "
    ∷ print_dec (to_int uptime)
    ∷ say " seconds\n\n"
    ∷ []

unfoldable pub cmd_info : Handler
cmd_info argv s =
    Option.bind (timer_get_uptime s.timer)
      λ uptime. finish (info_calls (memory_get_total s.memory) (memory_get_free s.memory) uptime) s

unfoldable pub uptime_calls : ℕ → List Call
uptime_calls seconds =
    let minutes = seconds / 60 in
    let hours = minutes / 60 in
    say "Uptime: "
    ∷ ((if ltb 0 hours then print_dec (to_int hours) ∷ say " hours, " ∷ [] else [])
        ++ ((if ltb 0 minutes || ltb 0 hours
              then print_dec (to_int (minutes % 60)) ∷ say " minutes, " ∷ []
              else [])
            ++ (print_dec (to_int (seconds % 60)) ∷ say " seconds\n" ∷ [])))

unfoldable pub cmd_uptime : Handler
cmd_uptime argv s =
    Option.bind (timer_get_uptime s.timer) λ seconds. finish (uptime_calls seconds) s

-- A line of cmd_memory.
unfoldable pub amount : String → ℕ → List Call
amount label n = say label ∷ print_dec (to_int (n / 1024)) ∷ say " KB (" ∷ print_dec (to_int n) ∷ []

-- The usage bar, with `filled` of its 40 characters set.
unfoldable pub usage_bar : ℕ → List Call
usage_bar filled =
    say "  ["
    ∷ ink light_green
    ∷ (replicate filled (putchar b'#')
        ++ (ink dark_grey
            ∷ (replicate (40 - filled) (putchar b'-') ++ (ink white ∷ say "] " ∷ []))))

unfoldable pub memory_calls : ℕ → ℕ → ℕ → List Call
memory_calls total used free =
    let percent = mul32 used 100 / total in
    ink light_cyan
    ∷ say "\n=== Memory Statistics ===\n\n"
    ∷ ink white
    ∷ (amount "  Total:  " total
        ++ (say " bytes)\n"
            ∷ (amount "  Used:   " used
                ++ (say " bytes)\n"
                    ∷ (amount "  Free:   " free
                        ++ (say " bytes)\n\n"
                            ∷ (usage_bar (percent * 40 / 100)
                                ++ (print_dec (to_int percent) ∷ say "%\n\n" ∷ []))))))))

-- A heap of no bytes is a division by zero.
unfoldable pub cmd_memory : Handler
cmd_memory argv s =
    let total = memory_get_total s.memory in
    if total == 0
    then none
    else finish (memory_calls total (memory_get_used s.memory) (memory_get_free s.memory)) s

unfoldable pub cmd_version : Handler
cmd_version argv s =
    finish
      (ink light_cyan
        ∷ say "KontolOS "
        ∷ ink white
        ∷ say "v0.1.0\n"
        ∷ say "Built from scratch with love!\n"
        ∷ [])
      s

-- The loop that reads the digits; an overflow of `color` wraps.
unfoldable pub read_color : ℕ → CString → ℕ
read_color color [] = color
read_color color (c ∷ s) =
    let rest = read_color (add32 (mul32 color 10) (sub32 c b'0')) s in
    if leb b'0' c && leb c b'9' then rest else color

unfoldable pub color_usage : List Call
color_usage =
    say "Usage: color <0-15>\n"
    ∷ say "Colors: 0=Black, 1=Blue, 2=Green, 3=Cyan, 4=Red, 5=Magenta\n"
    ∷ say "        6=Brown, 7=LightGrey, 8=DarkGrey, 9=LightBlue\n"
    ∷ say "        10=LightGreen, 11=LightCyan, 12=LightRed\n"
    ∷ say "        13=LightMagenta, 14=Yellow, 15=White\n"
    ∷ []

-- Both tests are on an `int`, so a number from 2 ^ 31 on is negative.
unfoldable pub color_calls : Option CString → List Call
color_calls none = color_usage
color_calls (some a) =
    let color = read_color 0 a in
    if leb color 15
    then ink color ∷ say "Text color changed!\n" ∷ []
    else say "Invalid color. Use 0-15.\n" ∷ []

unfoldable pub cmd_color : Handler
cmd_color argv s = finish (color_calls (second argv)) s

unfoldable pub cmd_pwd : Handler
cmd_pwd argv s = finish (print (fs_getcwd s.fs) ∷ say "\n" ∷ []) s
