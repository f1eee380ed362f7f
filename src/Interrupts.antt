-- ===== src/Interrupts.antt =====
-- The interrupt tables of src/kernel/idt.c: the gates, the registered handlers, and the dispatch of an IRQ.
--
-- A handler is a function on `S`, the state of the drivers; 0 is `none`. The addresses of the stubs in
-- src/kernel/isr.asm are the arguments `isr` and `irq`. `outb` appends to the list of the writes to ports,
-- the newest first; io_wait is a write to port 0x80 (src/kernel/kernel.h).
pub mod Gates
pub mod Dispatch
pub mod Drivers
mod Tests
use kontol_os.Base.{
  ℕ, zero, suc, ◌+◌, ◌-◌, ◌/◌, ◌%◌, ◌^◌, Bool, true, false, Option, none, some, List, [], ◌∷◌,
  if◌then◌else◌, ◌==◌, ltb, leb, update, for_range,
}

-- `struct idt_entry`
pub record IdtEntry : Type 0 where
  pub base_low : ℕ
  pub sel : ℕ
  pub always0 : ℕ
  pub flags : ℕ
  pub base_high : ℕ

abbrev pub idt_entries : ℕ
idt_entries = 256

abbrev pub idt_flags_interrupt : ℕ
idt_flags_interrupt = 0x8e

abbrev pub gate : ℕ → ℕ → ℕ → IdtEntry
gate base sel flags = record {
  base_low = base % 2 ^ 16;
  sel = sel;
  always0 = 0;
  flags = flags;
  base_high = base / 2 ^ 16 % 2 ^ 16;
}

pub record Interrupts (S : Type 0) : Type 0 where
  pub idt : ℕ → IdtEntry
  pub irq_handlers : ℕ → Option (S → S)
  pub drivers : S
  pub outs : List (ℕ × ℕ)

module _ {S : Type 0} where
  abbrev pub outb : ℕ → ℕ → Interrupts S → Interrupts S
  outb port value s = record s { outs = (port, value) ∷ s.outs }

  unfoldable pub idt_set_gate : ℕ → ℕ → ℕ → ℕ → Interrupts S → Interrupts S
  idt_set_gate num base sel flags s = record s { idt = update s.idt num (gate base sel flags) }

  -- `outb(port, value); io_wait();`
  abbrev pub out_wait : ℕ → ℕ → Interrupts S → Interrupts S
  out_wait port value s = outb 0x80 0 (outb port value s)

  -- The masks that both controllers hold are read first.
  unfoldable pub pic_remap : ℕ → ℕ → Interrupts S → Interrupts S
  pic_remap mask1 mask2 s =
      let s1 = out_wait 0xa0 0x11 (out_wait 0x20 0x11 s) in
      let s2 = out_wait 0xa1 0x28 (out_wait 0x21 0x20 s1) in
      let s3 = out_wait 0xa1 2 (out_wait 0x21 4 s2) in
      let s4 = out_wait 0xa1 1 (out_wait 0x21 1 s3) in outb 0xa1 mask2 (outb 0x21 mask1 s4)

  -- The calls of idt_set_gate for `n` stubs, to the gates from `first` on.
  abbrev pub set_gates : ℕ → (ℕ → ℕ) → ℕ → ℕ → Interrupts S → Interrupts S
  set_gates first stub lo n s =
      for_range lo n (λ i t. idt_set_gate (first + i) (stub i) 0x08 idt_flags_interrupt t) s

  abbrev pub clear_gates : ℕ → ℕ → Interrupts S → Interrupts S
  clear_gates lo n s = for_range lo n (λ i t. idt_set_gate i 0 0 0 t) s

  -- Without the two instructions that load the table and enable interrupts.
  unfoldable pub idt_init : (ℕ → ℕ) → (ℕ → ℕ) → ℕ → ℕ → Interrupts S → Interrupts S
  idt_init isr irq mask1 mask2 s =
      set_gates 32 irq 0 16
        (pic_remap mask1 mask2 (set_gates 0 isr 0 32 (clear_gates 0 idt_entries s)))

  unfoldable pub irq_register_handler : ℕ → (S → S) → Interrupts S → Interrupts S
  irq_register_handler irq handler s =
      if ltb irq 16 then record s { irq_handlers = update s.irq_handlers irq (some handler) } else s

  unfoldable pub irq_unregister_handler : ℕ → Interrupts S → Interrupts S
  irq_unregister_handler irq s =
      if ltb irq 16 then record s { irq_handlers = update s.irq_handlers irq none } else s

  -- `if (irq_handlers[irq]) irq_handlers[irq](frame);`
  unfoldable pub call_handler : Option (S → S) → Interrupts S → Interrupts S
  call_handler none s = s
  call_handler (some handler) s = record s { drivers = handler s.drivers }

  unfoldable pub send_eoi : ℕ → Interrupts S → Interrupts S
  send_eoi irq s = outb 0x20 0x20 (if leb 8 irq then outb 0xa0 0x20 s else s)

  -- `none` is a read outside irq_handlers.
  unfoldable pub irq_handler : ℕ → Interrupts S → Option (Interrupts S)
  irq_handler int_no s =
      let irq = (int_no + 2 ^ 8 - 32) % 2 ^ 8 in
      if ltb irq 16 then some (send_eoi irq (call_handler (s.irq_handlers irq) s)) else none
