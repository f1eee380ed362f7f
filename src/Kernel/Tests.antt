-- ===== src/Kernel/Tests.antt =====
-- The boot of src/kernel/kernel.c at concrete inputs.
use kontol_os.Base.{◌+◌, ◌*◌, ◌/◌, ◌≡◌, refl, true, none, some, [], arith, replicate}
use kontol_os.Interrupts.{gate}
use kontol_os.Screen.{codes}
use kontol_os.Shell.Sound.{IsSound}
use kontol_os.Shell.Sample.{booted, raw_fs, raw_memory, blank-Sized}
use kontol_os.Kernel.{Machine, kernel_main, percent_string}
use kontol_os.Kernel.Boot.{IsWired, kernel_main-Sound}
use kontol_os.Kernel.Early.{Declared}

abbrev raw_machine : Machine
raw_machine = record {
  idt = λ k. gate 1 2 3;
  irq_handlers = λ k. none;
  drivers = record (booted (replicate 256 9) []) { fs = raw_fs; memory = raw_memory };
  outs = [];
}

raw-Declared : Declared raw_machine.drivers
raw-Declared = record {
  slots = refl;
  names = blank-Sized 64;
  dir = refl;
  line = refl;
  stack = refl;
}

kernel_main-Sound_example :
    (s : Machine) × (kernel_main
        (λ k. 0x1000 + k)
        (λ k. 0x2000 + k)
        0xb8
        0x8e
        (replicate 400 true)
        raw_machine
      ≡ some s)
    × IsSound s.drivers
    × IsWired s
kernel_main-Sound_example =
    kernel_main-Sound (λ k. 0x1000 + k) (λ k. 0x2000 + k) 0xb8 0x8e (replicate 400 true) raw_machine
      raw-Declared (omega arith)

percent_string-full : percent_string 100 ≡ codes "100%"
unfolding percent_string
percent_string-full = refl

percent_string-two : percent_string (3 * 100 / 40) ≡ codes "7%"
unfolding percent_string
percent_string-two = refl
