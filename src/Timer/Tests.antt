-- ===== src/Timer/Tests.antt =====
-- The timer of src/drivers/timer.c at concrete inputs.
use kontol_os.Base.{◌-◌, ◌^◌, Bool, true, false, List, [], ◌∷◌, arith}
use kontol_os.Timer.{Timer, timer_sleep_ticks}
use kontol_os.Timer.Sleep.{Waits, timer_sleep_ticks-Waits}

abbrev started : Timer
started = record { timer_ticks = 7; timer_frequency = 100; outs = [] }

abbrev late : Timer
late = record { timer_ticks = 2 ^ 32 - 1; timer_frequency = 100; outs = [] }

-- Timer and keyboard interrupts.
abbrev arriving : List Bool
arriving = true ∷ false ∷ true ∷ true ∷ true ∷ true ∷ []

timer_sleep_ticks-Waits_example : Waits 2 arriving started (timer_sleep_ticks 2 arriving started)
timer_sleep_ticks-Waits_example =
    timer_sleep_ticks-Waits 2 arriving started (omega arith) (omega arith)
