-- ===== src/Timer/Sleep.antt =====
-- How long the waiting functions of src/drivers/timer.c wait.
use kontol_os.Base.{
  ℕ, zero, suc, ◌+◌, ◌*◌, ◌/◌, ◌^◌, ◌≤◌, ◌<◌, ◌≡◌, refl, ap, ◌∙◌, Bool, true, false, Option, some,
  List, [], ◌∷◌, ◌++◌, arith, if◌then◌else◌, ◌==◌, ltb, add32, mul32,
}
use kontol_os.Timer.{Timer, timer_handler, wait_until, timer_sleep_ticks, ms_ticks, timer_sleep_ms}

-- The timer interrupts of a list.
abbrev pub timer_count : List Bool → ℕ
timer_count [] = 0
timer_count (irq ∷ irqs) = (if irq then 1 else 0) + timer_count irqs

-- The wait is over after exactly `n` timer interrupts, the last of which ends it.
abbrev pub Waits : ℕ → List Bool → Timer → Option (Timer × List Bool) → Type 0
Waits n irqs t r =
    (seen : List Bool) × (left : List Bool) × (irqs ≡ seen ++ left)
    × (timer_count seen ≡ n)
    × (r ≡ some (record t { timer_ticks = t.timer_ticks + n }, left))

wait_over :
    (end : ℕ) (irqs : List Bool) (t : Timer)
    → end ≤ t.timer_ticks
    → wait_until end irqs t ≡ some (t, irqs)
unfolding wait_until
wait_over end [] t h = let over : ltb t.timer_ticks end ≡ false = ground arith in rw over
wait_over end (irq ∷ irqs) t h = let over : ltb t.timer_ticks end ≡ false = ground arith in rw over

wait_more :
    (end : ℕ) (irq : Bool) (irqs : List Bool) (t : Timer)
    → t.timer_ticks < end
    → wait_until end (irq ∷ irqs) t ≡ wait_until end irqs (if irq then timer_handler t else t)
unfolding wait_until
wait_more end irq irqs t h = let more : ltb t.timer_ticks end ≡ true = ground arith in rw more

at_ticks : Timer → ℕ → Timer
at_ticks t n = record t { timer_ticks = n }

handler_at :
    (t : Timer) → t.timer_ticks + 1 < 2 ^ 32 → timer_handler t ≡ at_ticks t (t.timer_ticks + 1)
unfolding timer_handler at_ticks
handler_at t h = ap (at_ticks t) (omega arith)

wait_until-Waits :
    (n end : ℕ) (irqs : List Bool) (t : Timer)
    → end ≡ t.timer_ticks + n
    → end < 2 ^ 32
    → n ≤ timer_count irqs
    → Waits n irqs t (wait_until end irqs t)
unfolding at_ticks
wait_until-Waits zero end irqs t e small enough = (
  [],
  irqs,
  refl,
  refl,
  wait_over end irqs t (omega arith) ∙ ap (λ k. some (at_ticks t k, irqs)) (omega arith),
)
wait_until-Waits (suc n) end [] t e small enough = absurd (omega arith)
wait_until-Waits (suc n) end (true ∷ irqs) t e small enough =
    let t' = at_ticks t (t.timer_ticks + 1) in
    let (seen, left, all, count, run) =
      wait_until-Waits n end irqs t' (omega arith) small (omega arith) in
    (
      true ∷ seen,
      left,
      ap (true ∷◌) all,
      omega (arith, count),
      wait_more end true irqs t (omega arith)
          ∙ ap (wait_until end irqs) (handler_at t (omega arith))
          ∙ run
          ∙ ap (λ k. some (at_ticks t k, left)) (omega arith),
    )
wait_until-Waits (suc n) end (false ∷ irqs) t e small enough =
    let (seen, left, all, count, run) = wait_until-Waits (suc n) end irqs t e small (omega arith) in
    (
      false ∷ seen,
      left,
      ap (false ∷◌) all,
      omega (arith, count),
      wait_more end false irqs t (omega arith) ∙ run,
    )

-- If the end of the wait is below 2 ^ 32, timer_sleep_ticks returns once enough timer interrupts have come,
-- after exactly the number asked for.
pub timer_sleep_ticks-Waits :
    (n : ℕ) (irqs : List Bool) (t : Timer)
    → t.timer_ticks + n < 2 ^ 32
    → n ≤ timer_count irqs
    → Waits n irqs t (timer_sleep_ticks n irqs t)
unfolding timer_sleep_ticks
timer_sleep_ticks-Waits n irqs t small enough =
    wait_until-Waits n (add32 t.timer_ticks n) irqs t (omega arith) (omega arith) enough

-- If the end of the wait is 2 ^ 32 or more, timer_sleep_ticks returns at once, without a wait.
pub timer_sleep_ticks-wrap :
    (n : ℕ) (irqs : List Bool) (t : Timer)
    → t.timer_ticks < 2 ^ 32
    → n < 2 ^ 32
    → 2 ^ 32 ≤ t.timer_ticks + n
    → timer_sleep_ticks n irqs t ≡ some (t, irqs)
unfolding timer_sleep_ticks
timer_sleep_ticks-wrap n irqs t a b big = wait_over (add32 t.timer_ticks n) irqs t (omega arith)

ms_ticks-bounds :
    (ms : ℕ) (t : Timer)
    → ms * t.timer_frequency < 2 ^ 32
    → (1 ≤ ms_ticks ms t)
      × (ms * t.timer_frequency / 1000 ≤ ms_ticks ms t)
      × (ms_ticks ms t ≤ ms * t.timer_frequency / 1000 + 1)
unfolding ms_ticks
ms_ticks-bounds ms t fits =
    let exact : mul32 ms t.timer_frequency ≡ ms * t.timer_frequency = omega arith in
    rw exact (at_least_one (ms * t.timer_frequency / 1000))
  where
    at_least_one :
        (q : ℕ)
        → (1 ≤ (if q == 0 then 1 else q))
          × (q ≤ (if q == 0 then 1 else q))
          × ((if q == 0 then 1 else q) ≤ q + 1)
    at_least_one q = ground arith

-- timer_sleep_ms waits for at least one tick, and for the number of whole ticks in the time if that is
-- more, where the product of the time and the frequency fits 32 bits.
pub timer_sleep_ms-Waits :
    (ms : ℕ) (irqs : List Bool) (t : Timer)
    → ms * t.timer_frequency < 2 ^ 32
    → t.timer_ticks + (ms * t.timer_frequency / 1000 + 1) < 2 ^ 32
    → ms * t.timer_frequency / 1000 + 1 ≤ timer_count irqs
    → (n : ℕ) × (1 ≤ n)
      × (ms * t.timer_frequency / 1000 ≤ n)
      × (n ≤ ms * t.timer_frequency / 1000 + 1)
      × Waits n irqs t (timer_sleep_ms ms irqs t)
unfolding timer_sleep_ms
timer_sleep_ms-Waits ms irqs t fits small enough =
    let (a, b, c) = ms_ticks-bounds ms t fits in
    (
      ms_ticks ms t,
      a,
      b,
      c,
      timer_sleep_ticks-Waits (ms_ticks ms t) irqs t (omega (arith, c)) (omega (arith, c)),
    )
