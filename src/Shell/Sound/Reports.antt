-- ===== src/Shell/Sound/Reports.antt =====
-- The commands of src/kernel/shell.c that print or stop the machine keep the system in order.
use kontol_os.Base.{
  ◌≡◌, refl, List, [], ◌∷◌, false, ◌==◌, ==_of_ne, ap, Whenever, Whenever-map, Whenever-any,
}
use mathlib.Core.Option
use kontol_os.CString.{CString}
use kontol_os.Memory.{memory_get_total}
use kontol_os.Timer.{timer_get_uptime}
use kontol_os.Screen.{say}
use kontol_os.Shell.System.{System, draw}
use kontol_os.Shell.Reports.{
  cmd_help, cmd_clear, cmd_echo, cmd_info, cmd_uptime, cmd_memory, cmd_version, cmd_color, cmd_pwd,
}
use kontol_os.Shell.Power.{wait_ready, cmd_reboot, cmd_halt, cmd_shutdown}
use kontol_os.Shell.Sound.{IsSound, After, Runs, draw-Sound, out-Sound, status-Sound, finish-Runs}

pub cmd_help-Runs : (argv : List CString) (s : System) → IsSound s → Runs (cmd_help argv s)
unfolding cmd_help
cmd_help-Runs argv s h = finish-Runs _ s h

pub cmd_clear-Runs : (argv : List CString) (s : System) → IsSound s → Runs (cmd_clear argv s)
unfolding cmd_clear
cmd_clear-Runs argv s h = finish-Runs _ s h

pub cmd_echo-Runs : (argv : List CString) (s : System) → IsSound s → Runs (cmd_echo argv s)
unfolding cmd_echo
cmd_echo-Runs argv s h = finish-Runs _ s h

pub cmd_version-Runs : (argv : List CString) (s : System) → IsSound s → Runs (cmd_version argv s)
unfolding cmd_version
cmd_version-Runs argv s h = finish-Runs _ s h

pub cmd_color-Runs : (argv : List CString) (s : System) → IsSound s → Runs (cmd_color argv s)
unfolding cmd_color
cmd_color-Runs argv s h = finish-Runs _ s h

pub cmd_pwd-Runs : (argv : List CString) (s : System) → IsSound s → Runs (cmd_pwd argv s)
unfolding cmd_pwd
cmd_pwd-Runs argv s h = finish-Runs _ s h

pub cmd_info-Runs : (argv : List CString) (s : System) → IsSound s → Runs (cmd_info argv s)
unfolding cmd_info timer_get_uptime Option.bind
cmd_info-Runs argv s h = rw (==_of_ne s.timer.timer_frequency 0 h.clock) (finish-Runs _ s h)

pub cmd_uptime-Runs : (argv : List CString) (s : System) → IsSound s → Runs (cmd_uptime argv s)
unfolding cmd_uptime timer_get_uptime Option.bind
cmd_uptime-Runs argv s h = rw (==_of_ne s.timer.timer_frequency 0 h.clock) (finish-Runs _ s h)

pub cmd_memory-Runs : (argv : List CString) (s : System) → IsSound s → Runs (cmd_memory argv s)
unfolding cmd_memory memory_get_total
cmd_memory-Runs argv s h =
    let (bs, r, c) = h.heap in
    let nonzero : (s.memory.total_memory == 0) ≡ false = ap (λ n. n == 0) r.total in
    rw nonzero (finish-Runs _ s h)

pub cmd_halt-Runs : (argv : List CString) (s : System) → IsSound s → Runs (cmd_halt argv s)
unfolding cmd_halt
cmd_halt-Runs argv s h = (_, refl, draw-Sound [] _ s h)

pub cmd_shutdown-Runs : (argv : List CString) (s : System) → IsSound s → Runs (cmd_shutdown argv s)
unfolding cmd_shutdown
cmd_shutdown-Runs argv s h = (
  _,
  refl,
  draw-Sound [] _ _ (out-Sound _ _ _ (out-Sound _ _ _ (out-Sound _ _ _ (draw-Sound [] _ s h)))),
)

-- If the controller becomes ready.
pub cmd_reboot-After :
    (argv : List CString) (s : System) → IsSound s → Whenever After (cmd_reboot argv s)
unfolding cmd_reboot draw
cmd_reboot-After argv s h =
    let h1 = draw-Sound [] (say "Rebooting system...\n" ∷ []) s h in
    Whenever-map (λ _. Unit) After (wait_ready s.status) _ (Whenever-any (wait_ready s.status))
      (λ rest _. out-Sound 0x64 0xfe _ (status-Sound rest _ h1))
