-- ===== src/Interrupts/Tests.antt =====
-- The interrupt tables of src/kernel/idt.c and the drivers behind them at concrete inputs.
use kontol_os.Base.{ℕ, suc, ◌≡◌, refl, false, none, some, List, [], ◌∷◌, update}
use kontol_os.Interrupts.{Interrupts, gate}
use kontol_os.Interrupts.Drivers.{
  Drivers, on_timer, on_keyboard, Event, tick, key, deliver_all, Served, deliver_all-Served,
}

-- One handler, which counts, for IRQ 9.
abbrev counting : Interrupts ℕ
counting = record {
  idt = λ k. gate 1 2 3;
  irq_handlers = update (λ k. none) 9 (some suc);
  drivers = 5;
  outs = [];
}

abbrev cold_drivers : Drivers
cold_drivers = record {
  timer = record { timer_ticks = 3; timer_frequency = 0; outs = [] };
  keyboard = record {
    keyboard_buffer = λ i. 0;
    buffer_start = 7;
    buffer_end = 9;
    shift_pressed = false;
    ctrl_pressed = false;
    alt_pressed = false;
    capslock_on = false;
  };
  scancode = 0;
}

abbrev cold : Interrupts Drivers
cold = record { idt = λ k. gate 0 0 0; irq_handlers = λ k. none; drivers = cold_drivers; outs = [] }

abbrev running : Interrupts Drivers
running = record cold {
  irq_handlers = update (update (λ k. none) 0 (some on_timer)) 1 (some on_keyboard);
}

-- A letter typed between two ticks.
abbrev some_events : List Event
some_events = tick ∷ key 0x1e ∷ tick ∷ []

deliver_all-Served_example :
    (s' : Interrupts Drivers) × (deliver_all some_events running ≡ some s')
    × Served some_events running s'
deliver_all-Served_example = deliver_all-Served some_events running (refl, refl)
