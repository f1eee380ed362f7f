-- ===== src/Interrupts/Dispatch.antt =====
-- What irq_handler of src/kernel/idt.c does for a registered handler.
use kontol_os.Base.{
  ℕ, ◌+◌, ◌-◌, ◌%◌, ◌^◌, ◌<◌, ◌≡◌, refl, inl, inr, arith, if◌then◌else◌, ◌==◌, ltb, leb, true,
  Option, none, some, List, ◌∷◌, Bool-cases,
}
use kontol_os.Interrupts.{
  Interrupts, irq_register_handler, irq_unregister_handler, call_handler, send_eoi, irq_handler,
}

-- The end-of-interrupt commands for an IRQ, in front of the writes of before: to the second controller too
-- if the IRQ is one of its own.
abbrev pub eoi_writes : ℕ → List (ℕ × ℕ) → List (ℕ × ℕ)
eoi_writes irq outs = if leb 8 irq then (0x20, 0x20) ∷ (0xa0, 0x20) ∷ outs else (0x20, 0x20) ∷ outs

module _ {S : Type 0} where
  -- The drivers after the handler of an IRQ, if it has one.
  abbrev pub after_handler : Option (S → S) → S → S
  after_handler none d = d
  after_handler (some handler) d = handler d

  -- The state after an IRQ: its handler ran once, the controllers are told, and the tables are as before.
  pub record Dispatched (irq : ℕ) (s s' : Interrupts S) : Type 0 where
    pub drivers : s'.drivers ≡ after_handler (s.irq_handlers irq) s.drivers
    pub outs : s'.outs ≡ eoi_writes irq s.outs
    pub handlers : s'.irq_handlers ≡ s.irq_handlers
    pub idt : s'.idt ≡ s.idt

  call_handler_lem :
      (o : Option (S → S)) (s : Interrupts S)
      → call_handler o s ≡ record s { drivers = after_handler o s.drivers }
  unfolding call_handler
  call_handler_lem none s = refl
  call_handler_lem (some handler) s = refl

  dispatched :
      (irq : ℕ) (s : Interrupts S)
      → Dispatched irq s (send_eoi irq (call_handler (s.irq_handlers irq) s))
  unfolding send_eoi
  dispatched irq s = elim (Bool-cases (leb 8 irq)) [
    | inl second ↦
        rw (call_handler_lem (s.irq_handlers irq) s, second)
          (record { drivers = refl; outs = rw second refl; handlers = refl; idt = refl })
    | inr first ↦
        rw (call_handler_lem (s.irq_handlers irq) s, first)
          (record { drivers = refl; outs = rw first refl; handlers = refl; idt = refl })
  ]

  -- An interrupt from 32 to 47 always returns: the handler registered for its IRQ ran once, or none if none
  -- is, and the controllers are told, the second one too for IRQs from 8 on; the tables are unchanged.
  pub irq_handler-Dispatched :
      (irq : ℕ) (s : Interrupts S)
      → irq < 16
      → (s' : Interrupts S) × (irq_handler (32 + irq) s ≡ some s') × Dispatched irq s s'
  unfolding irq_handler
  irq_handler-Dispatched irq s h =
      let at : (32 + irq + 2 ^ 8 - 32) % 2 ^ 8 ≡ irq = omega arith in
      let inside : ltb irq 16 ≡ true = ground arith in
      (send_eoi irq (call_handler (s.irq_handlers irq) s), rw (at, inside) refl, dispatched irq s)

  -- Once a handler is registered for an IRQ, that IRQ runs it, and all others run what they ran before; once
  -- it is unregistered again, that IRQ runs nothing.
  pub irq_register_handler_lem :
      (irq k : ℕ) (handler : S → S) (s : Interrupts S) (d : S)
      → irq < 16
      → (after_handler ((irq_register_handler irq handler s).irq_handlers k) d
          ≡ (if k == irq then handler d else after_handler (s.irq_handlers k) d))
        × (after_handler
              ((irq_unregister_handler irq (irq_register_handler irq handler s)).irq_handlers k)
              d
            ≡ (if k == irq then d else after_handler (s.irq_handlers k) d))
  unfolding irq_register_handler irq_unregister_handler
  irq_register_handler_lem irq k handler s d h =
      let inside : ltb irq 16 ≡ true = ground arith in
      elim (Bool-cases (k == irq)) [
        | inl same ↦ (rw (inside, same) refl, rw (inside, same) refl)
        | inr other ↦ (rw (inside, other) refl, rw (inside, other) refl)
      ]
