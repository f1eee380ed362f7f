-- ===== src/Shell/Execute.antt =====
-- The command table of src/kernel/shell.c, the look-up of a command, and a round of the main loop.
use Prim.Native.String.{String}
use kontol_os.Base.{ℕ, Option, none, some, List, [], ◌∷◌, if◌then◌else◌, drop}
use kontol_os.CString.{CString}
use kontol_os.Keyboard.Line.{Line, waiting, line, fault, exhausted, keyboard_readline}
use kontol_os.Ramfs.{same_string}
use kontol_os.Screen.{Call, print, say, ink, codes, light_red, light_green, white}
use kontol_os.Shell.{parse_args}
use kontol_os.Shell.System.{System, Outcome, returned, Handler, draw, finish}
use kontol_os.Shell.Reports.{
  descriptions, cmd_help, cmd_clear, cmd_echo, cmd_info, cmd_uptime, cmd_memory, cmd_version,
  cmd_color, cmd_pwd,
}
use kontol_os.Shell.Power.{cmd_reboot, cmd_halt, cmd_shutdown}
use kontol_os.Shell.Files.{cmd_ls, cmd_cat, cmd_touch, cmd_rm, cmd_mkdir, cmd_rmdir, cmd_cd}
use kontol_os.Nano.Loop.{cmd_nano}

-- MAX_ARGS and SHELL_BUFFER_SIZE
abbrev pub max_args : ℕ
max_args = 16

abbrev pub shell_buffer_size : ℕ
shell_buffer_size = 256

-- The handlers of `commands`, in the order of `descriptions`.
abbrev pub handlers : List Handler
handlers =
    cmd_help ∷ cmd_clear ∷ cmd_echo ∷ cmd_info ∷ cmd_uptime ∷ cmd_memory ∷ cmd_reboot ∷ cmd_halt
    ∷ cmd_shutdown ∷ cmd_version ∷ cmd_color ∷ cmd_ls ∷ cmd_cat ∷ cmd_touch ∷ cmd_rm ∷ cmd_nano
    ∷ cmd_mkdir ∷ cmd_rmdir ∷ cmd_cd ∷ cmd_pwd ∷ []

-- The loop over the table; `none` at its end.
unfoldable pub look_up : CString → List (String × String) → List Handler → Option Handler
look_up name [] hs = none
look_up name (d ∷ ds) [] = none
look_up name ((n, description) ∷ ds) (h ∷ hs) =
    let rest = look_up name ds hs in if same_string name (codes n) then some h else rest

unfoldable pub unknown_calls : CString → List Call
unknown_calls name =
    ink light_red
    ∷ say "Unknown command: "
    ∷ print name
    ∷ say "\nType 'help' for available commands.\n"
    ∷ ink white
    ∷ []

unfoldable pub run_command : List CString → System → Option Outcome
run_command [] s = some (returned s)
run_command (name ∷ args) s = elim (look_up name descriptions handlers) [
  | none ↦ finish (unknown_calls name) s
  | some handler ↦ handler (name ∷ args) s
]

-- The texts that `argv` points to.
unfoldable pub arguments : List ℕ → List ℕ → List CString
arguments [] chars = []
arguments (a ∷ argv) chars = drop a chars ∷ arguments argv chars

-- The line is the command buffer, which parse_args cuts in place.
unfoldable pub execute_command : System → Option Outcome
execute_command s =
    let (argv, line') = parse_args s.command_buffer max_args in
    run_command (arguments argv line') (record s { command_buffer = line' })

-- What keyboard_readline leaves.
unfoldable pub with_line : System → Line → Option System
with_line s waiting = none
with_line s (line i buffer k v arriving) =
    some (record s { vga = v; keyboard = k; arriving = arriving; command_buffer = buffer })
with_line s fault = none
with_line s exhausted = none

abbrev pub prompt_calls : List Call
prompt_calls = ink light_green ∷ say "kontol> " ∷ ink white ∷ []

-- The prompt, and the line that is read; `none` also if the line is still not complete.
unfoldable pub read_line : System → Option System
read_line s =
    let s1 = draw prompt_calls s in
    with_line s1
      (keyboard_readline s1.command_buffer shell_buffer_size s1.arriving s1.keyboard s1.vga)

-- A round of shell_run.
unfoldable pub shell_round : System → Option Outcome
shell_round s = elim (read_line s) [ none ↦ none | some s' ↦ execute_command s' ]
