-- ===== src/Timer.antt =====
-- The timer of src/drivers/timer.c: the tick counter, and the functions that wait for it.
--
-- `halt` returns after an interrupt. The interrupts that arrive while a function waits are a list, in
-- which `true` is the timer's, whose handler runs before `halt` returns. `outb` appends to the list of
-- the writes to ports, the newest first.
pub mod Sleep
mod Tests
use kontol_os.Base.{
  ℕ, zero, suc, ◌+◌, ◌*◌, ◌/◌, ◌%◌, ◌^◌, Bool, true, false, not, Option, none, some, List, [], ◌∷◌,
  if◌then◌else◌, ◌==◌, ltb, add32, mul32,
}

abbrev pub pit_base_frequency : ℕ
pit_base_frequency = 1193182

pub record Timer : Type 0 where
  pub timer_ticks : ℕ
  pub timer_frequency : ℕ
  pub outs : List (ℕ × ℕ)

unfoldable pub timer_handler : Timer → Timer
timer_handler t = record t { timer_ticks = add32 t.timer_ticks 1 }

abbrev pub outb : ℕ → ℕ → Timer → Timer
outb port value t = record t { outs = (port, value) ∷ t.outs }

-- The state and the writes of timer_init, once the divisor is computed.
unfoldable pub start_timer : ℕ → ℕ → Timer → Timer
start_timer frequency divisor t = outb 0x40 (divisor / 2 ^ 8 % 2 ^ 8) (
    outb 0x40 (divisor % 2 ^ 8)
      (outb 0x43 0x36 (record t { timer_ticks = 0; timer_frequency = frequency })))

-- Without the registration of the handler. `none` is the fault of a division by zero.
unfoldable pub timer_init : ℕ → Timer → Option Timer
timer_init frequency t =
    if frequency == 0 then none else some (start_timer frequency (pit_base_frequency / frequency) t)

unfoldable pub timer_get_ticks : Timer → ℕ
timer_get_ticks t = t.timer_ticks

unfoldable pub timer_get_uptime : Timer → Option ℕ
timer_get_uptime t =
    if t.timer_frequency == 0 then none else some (t.timer_ticks / t.timer_frequency)

-- `while (timer_ticks < end) halt();`, with the interrupts that are left; `none` while it still waits.
unfoldable pub wait_until : ℕ → List Bool → Timer → Option (Timer × List Bool)
wait_until end [] t = if ltb t.timer_ticks end then none else some (t, [])
wait_until end (irq ∷ irqs) t =
    let rest = wait_until end irqs (if irq then timer_handler t else t) in
    if ltb t.timer_ticks end then rest else some (t, irq ∷ irqs)

unfoldable pub timer_sleep_ticks : ℕ → List Bool → Timer → Option (Timer × List Bool)
timer_sleep_ticks ticks irqs t = wait_until (add32 t.timer_ticks ticks) irqs t

-- The number of ticks of timer_sleep_ms.
unfoldable pub ms_ticks : ℕ → Timer → ℕ
ms_ticks ms t = let ticks = mul32 ms t.timer_frequency / 1000 in if ticks == 0 then 1 else ticks

unfoldable pub timer_sleep_ms : ℕ → List Bool → Timer → Option (Timer × List Bool)
timer_sleep_ms ms irqs t = timer_sleep_ticks (ms_ticks ms t) irqs t

unfoldable pub timer_sleep : ℕ → List Bool → Timer → Option (Timer × List Bool)
timer_sleep seconds irqs t = timer_sleep_ticks (mul32 seconds t.timer_frequency) irqs t
