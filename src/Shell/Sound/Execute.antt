-- ===== src/Shell/Sound/Execute.antt =====
-- The look-up of src/kernel/shell.c and a round of its main loop keep the system in order.
use Prim.Native.String.{String}
use kontol_os.Base.{
  ℕ, ◌≡◌, refl, sym, ap, ◌∙◌, subst, inl, inr, Bool, true, false, ◌||◌, none, some, List, [], ◌∷◌,
  arith, Bool-cases, Option-cases, length, Whenever, ap₂, Option,
}
use mathlib.Core.Option
use kontol_os.CString.{CString}
use kontol_os.Keyboard.Queue.{Queued}
use kontol_os.Keyboard.Enter.{Due, keyboard_readline-Returned}
use kontol_os.Ramfs.{same_string}
use kontol_os.Ramfs.Table.{same_string_iff, same_string-text}
use kontol_os.Screen.{codes}
use kontol_os.Shell.{parse_args}
use kontol_os.Shell.Parse.{parse_args-words}
use kontol_os.Shell.System.{System, returned, Handler, draw, finish}
use kontol_os.Shell.Power.{cmd_reboot}
use kontol_os.Shell.Reports.{descriptions}
use kontol_os.Shell.Execute.{
  handlers, look_up, unknown_calls, run_command, arguments, execute_command, with_line,
  prompt_calls, read_line, shell_round,
}
use kontol_os.Shell.Sound.{IsSound, After, Runs, draw-Sound, finish-Runs}
use kontol_os.Shell.Sound.Reports.{
  cmd_help-Runs, cmd_clear-Runs, cmd_echo-Runs, cmd_info-Runs, cmd_uptime-Runs, cmd_memory-Runs,
  cmd_version-Runs, cmd_color-Runs, cmd_pwd-Runs, cmd_halt-Runs, cmd_shutdown-Runs,
  cmd_reboot-After,
}
use kontol_os.Shell.Sound.Files.{
  cmd_cat-Runs, cmd_touch-Runs, cmd_rm-Runs, cmd_mkdir-Runs, cmd_rmdir-Runs, cmd_cd-Runs,
}
use kontol_os.Shell.Sound.Listing.{cmd_ls-Runs}
use kontol_os.Nano.Loop.{cmd_nano}
use kontol_os.Nano.Sound.Loop.{cmd_nano-After}

-- The commands that wait for the hardware: nano for keys, reboot for the keyboard controller.
abbrev pub is_waiting : CString → Bool
is_waiting name = same_string name (codes "nano") || same_string name (codes "reboot")

-- A handler leaves the system in order, and it ends unless its command waits.
abbrev Behaves : String → Handler → Type 0
Behaves n handler =
    (argv : List CString) (s : System)
    → IsSound s
    → Whenever After (handler argv s) × (is_waiting (codes n) ≡ false → Runs (handler argv s))

abbrev AllBehave : List (String × String) → List Handler → Type 0
AllBehave [] hs = Unit
AllBehave (d ∷ ds) [] = Unit
AllBehave ((n, description) ∷ ds) (h ∷ hs) = Behaves n h × AllBehave ds hs

ends :
    (n : String) (handler : Handler)
    → ((argv : List CString) (s : System) → IsSound s → Runs (handler argv s))
    → Behaves n handler
ends n handler runs argv s h =
    let (o, e, after) = runs argv s h in
    (subst (Whenever After) (sym e) after, λ waits. (o, e, after))

waits_nano : is_waiting (codes "nano") ≡ true
waits_nano =
    ap (λ b. b || same_string (codes "nano") (codes "reboot"))
      ((same_string_iff (codes "nano") (codes "nano")).1 refl)

waits_reboot : is_waiting (codes "reboot") ≡ true
waits_reboot =
    let second : same_string (codes "reboot") (codes "reboot") ≡ true =
      (same_string_iff (codes "reboot") (codes "reboot")).1 refl in
    ground (arith, second)

nano-Behaves : Behaves "nano" cmd_nano
nano-Behaves argv s h = (cmd_nano-After argv s h, λ idle. absurd (ground (arith, waits_nano)))

reboot-Behaves : Behaves "reboot" cmd_reboot
reboot-Behaves argv s h = (cmd_reboot-After argv s h, λ idle. absurd (ground (arith, waits_reboot)))

all_behave : AllBehave descriptions handlers
all_behave = (
  ends "help" _ cmd_help-Runs,
  (
    ends "clear" _ cmd_clear-Runs,
    (
      ends "echo" _ cmd_echo-Runs,
      (
        ends "info" _ cmd_info-Runs,
        (
          ends "uptime" _ cmd_uptime-Runs,
          (
            ends "memory" _ cmd_memory-Runs,
            (
              reboot-Behaves,
              (
                ends "halt" _ cmd_halt-Runs,
                (
                  ends "shutdown" _ cmd_shutdown-Runs,
                  (
                    ends "version" _ cmd_version-Runs,
                    (
                      ends "color" _ cmd_color-Runs,
                      (
                        ends "ls" _ cmd_ls-Runs,
                        (
                          ends "cat" _ cmd_cat-Runs,
                          (
                            ends "touch" _ cmd_touch-Runs,
                            (
                              ends "rm" _ cmd_rm-Runs,
                              (
                                nano-Behaves,
                                (
                                  ends "mkdir" _ cmd_mkdir-Runs,
                                  (
                                    ends "rmdir" _ cmd_rmdir-Runs,
                                    (ends "cd" _ cmd_cd-Runs, (ends "pwd" _ cmd_pwd-Runs, tt)),
                                  ),
                                ),
                              ),
                            ),
                          ),
                        ),
                      ),
                    ),
                  ),
                ),
              ),
            ),
          ),
        ),
      ),
    ),
  ),
)

look_up-Behaves :
    (name : CString) (ds : List (String × String)) (hs : List Handler) (handler : Handler)
    → AllBehave ds hs
    → look_up name ds hs ≡ some handler
    → (n : String) × (same_string name (codes n) ≡ true) × Behaves n handler
unfolding look_up
look_up-Behaves name [] hs handler all e = absurd (Option.none-ne-some handler e)
look_up-Behaves name (d ∷ ds) [] handler all e = absurd (Option.none-ne-some handler e)
look_up-Behaves name ((n, description) ∷ ds) (h ∷ hs) handler (here, later) e =
    elim (Bool-cases (same_string name (codes n))) [
      | inl found ↦
          let same : h ≡ handler = Option.some-injective h handler (rw found at e) in
          (n, found, subst (Behaves n) same here)
      | inr other ↦ look_up-Behaves name ds hs handler later (rw other at e)
    ]

is_waiting-text : (a b : CString) → same_string a b ≡ true → is_waiting a ≡ is_waiting b
is_waiting-text a b same =
    let texts = (same_string_iff a b).0 same in
    ap₂ (λ x y. x || y) (same_string-text a b (codes "nano") (codes "nano") texts refl)
      (same_string-text a b (codes "reboot") (codes "reboot") texts refl)

-- The command of a line of words, if there is one, does not wait.
abbrev pub Ends : List CString → Type 0
Ends [] = Unit
Ends (name ∷ args) = is_waiting name ≡ false

run_command-Sound :
    (argv : List CString) (s : System)
    → IsSound s
    → Whenever After (run_command argv s) × (Ends argv → Runs (run_command argv s))
unfolding run_command finish
run_command-Sound [] s h = (h, λ idle. (returned s, refl, h))
run_command-Sound (name ∷ args) s h = elim (Option-cases (look_up name descriptions handlers)) [
  | inl miss ↦
      let (o, e, after) = finish-Runs (unknown_calls name) s h in
      rw (miss, run_command) (subst (Whenever After) (sym e) after, λ idle. (o, e, after))
  | inr (handler, found) ↦
      let (n, same, behaves) =
        look_up-Behaves name descriptions handlers handler all_behave found in
      let (safe, runs) = behaves (name ∷ args) s h in
      rw (found, run_command)
        (safe, λ idle. runs (sym (is_waiting-text name (codes n) same) ∙ idle))
]

line-Sound :
    (l : List ℕ) (s : System)
    → length l ≡ length s.command_buffer
    → IsSound s
    → IsSound (record s { command_buffer = l })
line-Sound l s size h = record {
  valid = h.valid;
  heap = h.heap;
  bounded = h.bounded;
  screen = h.screen;
  clock = h.clock;
  ring = h.ring;
  line = size ∙ h.line;
  stack = h.stack;
}

-- The words of the command line.
abbrev pub argv_of : System → List CString
argv_of s = let (argv, line') = parse_args s.command_buffer 16 in arguments argv line'

pub execute_command-Runs : (s : System) → IsSound s → Ends (argv_of s) → Runs (execute_command s)
unfolding execute_command
execute_command-Runs s h =
    let (argv, line') = parse_args s.command_buffer 16 in
    (run_command-Sound (arguments argv line') (record s { command_buffer = line' })
      (line-Sound line' s (parse_args-words s.command_buffer 16).1 h)).1

-- keyboard_readline reads the line, and the system stays in order.
read_line-Sound :
    (s : System) (q : List ℕ)
    → IsSound s
    → Queued s.keyboard q
    → Due q s.arriving
    → (s' : System) × (read_line s ≡ some s') × IsSound s'
unfolding read_line with_line draw
read_line-Sound s q h ring due =
    let s1 = draw prompt_calls s in
    let h1 = draw-Sound [] prompt_calls s h in
    let (i, b, k, v, rest, e, back) =
      keyboard_readline-Returned 256 s1.command_buffer s1.arriving s1.keyboard s1.vga q
        (omega arith) (omega (arith, h1.line)) (omega arith) ring h1.screen due in
    (
      record s1 { vga = v; keyboard = k; arriving = rest; command_buffer = b },
      ap (with_line s1) e,
      record {
        valid = h.valid;
        heap = h.heap;
        bounded = h.bounded;
        screen = back.screen;
        clock = h.clock;
        ring = back.ring;
        line = back.size ∙ h.line;
        stack = h.stack;
      },
    )

-- The command of the line that is read, if there is one, is not nano or reboot.
abbrev pub LineEnds : Option System → Type 0
LineEnds none = Unit
LineEnds (some s) = Ends (argv_of s)

-- A round of the main loop of the shell, with a newline in the ring of the keyboard or the Enter key among
-- the interrupts to come, and a line whose command is not nano or reboot: it reads the line and
-- ends, and the system is in order afterwards.
pub shell_round-Runs :
    (s : System) (q : List ℕ)
    → IsSound s
    → Queued s.keyboard q
    → Due q s.arriving
    → LineEnds (read_line s)
    → Runs (shell_round s)
unfolding shell_round
shell_round-Runs s q h ring due ends =
    let (s', got, h') = read_line-Sound s q h ring due in
    let idle : Ends (argv_of s') = subst LineEnds got ends in
    rw (got, shell_round) (execute_command-Runs s' h' idle)
