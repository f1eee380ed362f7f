-- ===== src/Interrupts/Gates.antt =====
-- The gates that idt_init of src/kernel/idt.c leaves.
use kontol_os.Base.{
  ℕ, zero, suc, ◌+◌, ◌-◌, ◌*◌, ◌^◌, ◌<◌, ◌≡◌, refl, ap, ◌∙◌, arith, if◌then◌else◌, ltb, for_range,
}
use kontol_os.Bytes.Copy.{within}
use kontol_os.Interrupts.{
  IdtEntry, idt_entries, idt_flags_interrupt, gate, Interrupts, idt_set_gate, pic_remap, set_gates,
  clear_gates, idt_init,
}

module _ {S : Type 0} where
  set_gates_lem :
      (first : ℕ) (stub : ℕ → ℕ) (lo n : ℕ) (s : Interrupts S) (k : ℕ)
      → (set_gates first stub lo n s).idt k ≡ (
          if within (first + lo) n k
          then gate (stub (k - first)) 0x08 idt_flags_interrupt
          else s.idt k)
  unfolding for_range idt_set_gate
  set_gates_lem first stub lo zero s k = ground arith
  set_gates_lem first stub lo (suc n) s k = ground (
    arith,
    set_gates_lem first stub (lo + 1) n
        (idt_set_gate (first + lo) (stub lo) 0x08 idt_flags_interrupt s) k,
  )

  clear_gates_lem :
      (lo n : ℕ) (s : Interrupts S) (k : ℕ)
      → (clear_gates lo n s).idt k ≡ (if within lo n k then gate 0 0 0 else s.idt k)
  unfolding for_range idt_set_gate
  clear_gates_lem lo zero s k = ground arith
  clear_gates_lem lo (suc n) s k =
      ground (arith, clear_gates_lem (lo + 1) n (idt_set_gate lo 0 0 0 s) k)

  pic_remap-idt : (mask1 mask2 : ℕ) (s : Interrupts S) → (pic_remap mask1 mask2 s).idt ≡ s.idt
  unfolding pic_remap
  pic_remap-idt mask1 mask2 s = refl

  -- Everything but the gates and the ports is as before.
  abbrev pub Untouched : Interrupts S → Interrupts S → Type 0
  Untouched s s' = (s'.drivers ≡ s.drivers) × (s'.irq_handlers ≡ s.irq_handlers)

  set_gates-Untouched :
      (first : ℕ) (stub : ℕ → ℕ) (lo n : ℕ) (s : Interrupts S)
      → Untouched s (set_gates first stub lo n s)
  unfolding for_range idt_set_gate
  set_gates-Untouched first stub lo zero s = (refl, refl)
  set_gates-Untouched first stub lo (suc n) s =
      set_gates-Untouched first stub (lo + 1) n
        (idt_set_gate (first + lo) (stub lo) 0x08 idt_flags_interrupt s)

  clear_gates-Untouched : (lo n : ℕ) (s : Interrupts S) → Untouched s (clear_gates lo n s)
  unfolding for_range idt_set_gate
  clear_gates-Untouched lo zero s = (refl, refl)
  clear_gates-Untouched lo (suc n) s = clear_gates-Untouched (lo + 1) n (idt_set_gate lo 0 0 0 s)

  pic_remap-Untouched : (mask1 mask2 : ℕ) (s : Interrupts S) → Untouched s (pic_remap mask1 mask2 s)
  unfolding pic_remap
  pic_remap-Untouched mask1 mask2 s = (refl, refl)

  -- idt_init changes no handler and no driver.
  pub idt_init-Untouched :
      (isr irq : ℕ → ℕ) (mask1 mask2 : ℕ) (s : Interrupts S)
      → Untouched s (idt_init isr irq mask1 mask2 s)
  unfolding idt_init
  idt_init-Untouched isr irq mask1 mask2 s =
      let s1 = clear_gates 0 256 s in
      let s2 = set_gates 0 isr 0 32 s1 in
      let s3 = pic_remap mask1 mask2 s2 in
      let (d1, h1) = clear_gates-Untouched 0 256 s in
      let (d2, h2) = set_gates-Untouched 0 isr 0 32 s1 in
      let (d3, h3) = pic_remap-Untouched mask1 mask2 s2 in
      let (d4, h4) = set_gates-Untouched 32 irq 0 16 s3 in (d4 ∙ d3 ∙ d2 ∙ d1, h4 ∙ h3 ∙ h2 ∙ h1)

  -- After idt_init the gates from 0 to 31 lead to the stubs of the exceptions, those from 32 to 47 to the
  -- stubs of the IRQs in order, and all other gates are zero.
  pub idt_init_lem :
      (isr irq : ℕ → ℕ) (mask1 mask2 : ℕ) (s : Interrupts S) (k : ℕ)
      → k < idt_entries
      → (idt_init isr irq mask1 mask2 s).idt k ≡ (
          if ltb k 32
          then gate (isr k) 0x08 idt_flags_interrupt
          else if ltb k 48
          then gate (irq (k - 32)) 0x08 idt_flags_interrupt
          else gate 0 0 0)
  unfolding idt_init
  idt_init_lem isr irq mask1 mask2 s k h =
      let cleared = clear_gates 0 256 s in
      let exceptions = set_gates 0 isr 0 32 cleared in
      set_gates_lem 32 irq 0 16 (pic_remap mask1 mask2 exceptions) k
      ∙ ap (λ t. if within (32 + 0) 16 k then gate (irq (k - 32)) 0x08 idt_flags_interrupt else t k)
          (pic_remap-idt mask1 mask2 exceptions)
      ∙ ap (λ g. if within (32 + 0) 16 k then gate (irq (k - 32)) 0x08 idt_flags_interrupt else g)
          (set_gates_lem 0 isr 0 32 cleared k
            ∙ ap
                (λ g.
                  if within (0 + 0) 32 k then gate (isr (k - 0)) 0x08 idt_flags_interrupt else g)
                (clear_gates_lem 0 256 s k))
      ∙ chosen (gate (irq (k - 32)) 0x08 idt_flags_interrupt)
          (λ i. gate (isr i) 0x08 idt_flags_interrupt) (gate 0 0 0) (s.idt k)
    where
      chosen :
          (a : IdtEntry) (b : ℕ → IdtEntry) (c d : IdtEntry)
          → (if within (32 + 0) 16 k
              then a
              else if within (0 + 0) 32 k
              then b (k - 0)
              else if within 0 256 k
              then c
              else d)
            ≡ (if ltb k 32 then b k else if ltb k 48 then a else c)
      chosen a b c d = ground arith

-- The address that a gate holds is the one it was given.
pub gate-base :
    (base : ℕ)
    → base < 2 ^ 32
    → (gate base 0x08 idt_flags_interrupt).base_high * 2 ^ 16
        + (gate base 0x08 idt_flags_interrupt).base_low
      ≡ base
gate-base base h = omega arith
