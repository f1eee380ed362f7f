-- ===== src/Interrupts/Drivers.antt =====
-- The drivers behind the dispatch: the handlers that timer_init (src/drivers/timer.c) and keyboard_init
-- (src/drivers/keyboard.c) register, in the order of init_system of src/kernel/kernel.c.
use kontol_os.Base.{
  ℕ, ◌/◌, ◌≡◌, refl, sym, ap, ◌∙◌, arith, false, Option, some, List, [], ◌∷◌, ◌≢◌, ◌==◌, ==_of_ne,
}
use mathlib.Core.Option
use kontol_os.Keyboard.{Keyboard, keyboard_handler, keyboard_init, keyboard_has_key}
use kontol_os.Timer.{Timer, timer_handler, timer_init, start_timer, pit_base_frequency}
use kontol_os.Interrupts.{Interrupts, irq_register_handler, irq_handler}
use kontol_os.Interrupts.Dispatch.{irq_handler-Dispatched}

-- `scancode` is what the data port of the keyboard controller reads as.
pub record Drivers : Type 0 where
  pub timer : Timer
  pub keyboard : Keyboard
  pub scancode : ℕ

abbrev pub on_timer : Drivers → Drivers
on_timer d = record d { timer = timer_handler d.timer }

abbrev pub on_keyboard : Drivers → Drivers
on_keyboard d = record d { keyboard = keyboard_handler d.scancode d.keyboard }

-- The registrations, with the timer started and the ring emptied.
unfoldable pub with_handlers : Timer → Interrupts Drivers → Interrupts Drivers
with_handlers t s = irq_register_handler 1 on_keyboard (
    irq_register_handler 0 on_timer (record s {
      drivers = record s.drivers { timer = t; keyboard = keyboard_init s.drivers.keyboard };
    }))

-- Both initializations; `none` is the fault of timer_init at frequency 0.
unfoldable pub init_drivers : ℕ → Interrupts Drivers → Option (Interrupts Drivers)
init_drivers frequency s =
    Option.map (λ t. with_handlers t s) (timer_init frequency s.drivers.timer)

-- An interrupt: of the timer, or of the keyboard with what its data port reads as.
pub data Event : Type 0 where
  tick : Event
  key : ℕ → Event

unfoldable pub deliver : Event → Interrupts Drivers → Option (Interrupts Drivers)
deliver tick s = irq_handler 32 s
deliver (key scancode) s =
    irq_handler 33 (record s { drivers = record s.drivers { scancode = scancode } })

unfoldable pub deliver_all : List Event → Interrupts Drivers → Option (Interrupts Drivers)
deliver_all [] s = some s
deliver_all (e ∷ es) s = Option.bind (deliver e s) (deliver_all es)

-- The timer's share of the interrupts, and the keyboard's.
abbrev pub tick_all : List Event → Timer → Timer
tick_all [] t = t
tick_all (tick ∷ es) t = tick_all es (timer_handler t)
tick_all (key scancode ∷ es) t = tick_all es t

abbrev pub key_all : List Event → Keyboard → Keyboard
key_all [] k = k
key_all (tick ∷ es) k = key_all es k
key_all (key scancode ∷ es) k = key_all es (keyboard_handler scancode k)

-- The handlers of both drivers are registered.
abbrev pub IsServing : Interrupts Drivers → Type 0
IsServing s = (s.irq_handlers 0 ≡ some on_timer) × (s.irq_handlers 1 ≡ some on_keyboard)

-- The state after some interrupts: each driver has seen its own, in their order.
pub record Served (es : List Event) (s s' : Interrupts Drivers) : Type 0 where
  pub serving : IsServing s'
  pub timer : s'.drivers.timer ≡ tick_all es s.drivers.timer
  pub keyboard : s'.drivers.keyboard ≡ key_all es s.drivers.keyboard

deliver-Served :
    (e : Event) (s : Interrupts Drivers)
    → IsServing s
    → (s' : Interrupts Drivers) × (deliver e s ≡ some s') × Served (e ∷ []) s s'
unfolding deliver
deliver-Served tick s (t, k) =
    let (s', run, d) = irq_handler-Dispatched 0 s (omega arith) in
    let here : s'.drivers ≡ on_timer s.drivers = rw t at d.drivers in
    (
      s',
      run,
      record {
        serving = (ap (λ h. h 0) d.handlers ∙ t, ap (λ h. h 1) d.handlers ∙ k);
        timer = ap (λ r. r.timer) here;
        keyboard = ap (λ r. r.keyboard) here;
      },
    )
deliver-Served (key scancode) s (t, k) =
    let s1 = record s { drivers = record s.drivers { scancode = scancode } } in
    let (s', run, d) = irq_handler-Dispatched 1 s1 (omega arith) in
    let here : s'.drivers ≡ on_keyboard s1.drivers = rw k at d.drivers in
    (
      s',
      run,
      record {
        serving = (ap (λ h. h 0) d.handlers ∙ t, ap (λ h. h 1) d.handlers ∙ k);
        timer = ap (λ r. r.timer) here;
        keyboard = ap (λ r. r.keyboard) here;
      },
    )

tick_all-cons :
    (e : Event) (es : List Event) (t : Timer)
    → tick_all (e ∷ es) t ≡ tick_all es (tick_all (e ∷ []) t)
tick_all-cons tick es t = refl
tick_all-cons (key scancode) es t = refl

key_all-cons :
    (e : Event) (es : List Event) (k : Keyboard)
    → key_all (e ∷ es) k ≡ key_all es (key_all (e ∷ []) k)
key_all-cons tick es k = refl
key_all-cons (key scancode) es k = refl

-- With both handlers registered, any sequence of timer and keyboard interrupts is served to its end: the
-- timer and the keyboard are each in the state that their own interrupts lead to, in their order, however
-- the two kinds are interleaved.
pub deliver_all-Served :
    (es : List Event) (s : Interrupts Drivers)
    → IsServing s
    → (s' : Interrupts Drivers) × (deliver_all es s ≡ some s') × Served es s s'
unfolding deliver_all Option.bind
deliver_all-Served [] s h = (s, refl, record { serving = h; timer = refl; keyboard = refl })
deliver_all-Served (e ∷ es) s h =
    let (s1, run1, d1) = deliver-Served e s h in
    let (s2, run2, d2) = deliver_all-Served es s1 d1.serving in
    (
      s2,
      rw run1 run2,
      record {
        serving = d2.serving;
        timer = d2.timer ∙ ap (tick_all es) d1.timer ∙ sym (tick_all-cons e es s.drivers.timer);
        keyboard =
            d2.keyboard ∙ ap (key_all es) d1.keyboard ∙ sym (key_all-cons e es s.drivers.keyboard);
      },
    )

-- timer_init and keyboard_init register both handlers, if the frequency is not 0; the counter is 0 and the
-- ring is empty then.
pub init_drivers-IsServing :
    (frequency : ℕ) (s : Interrupts Drivers)
    → frequency ≢ 0
    → (s' : Interrupts Drivers) × (init_drivers frequency s ≡ some s')
      × IsServing s'
      × (s'.drivers.timer.timer_ticks ≡ 0)
      × (keyboard_has_key s'.drivers.keyboard ≡ false)
unfolding init_drivers with_handlers timer_init start_timer irq_register_handler keyboard_init
    keyboard_has_key
init_drivers-IsServing frequency s h =
    let nonzero : (frequency == 0) ≡ false = ==_of_ne frequency 0 h in
    let t = start_timer frequency (pit_base_frequency / frequency) s.drivers.timer in
    (with_handlers t s, rw nonzero refl, (refl, refl), refl, refl)
