-- ===== src/Kernel/Panic.antt =====
-- kernel_panic of src/kernel/kernel.c, and isr_handler of src/kernel/idt.c, which ends in it.
use Prim.Native.String.{String}
use kontol_os.Base.{ℕ, List, [], ◌∷◌, get_or, if◌then◌else◌, ltb}
use kontol_os.CString.{CString}
use kontol_os.Screen.{Call, set_color, print, print_hex, say, ink, codes, white, red}
use kontol_os.Shell.System.{System, Outcome, returned, halted, draw}

unfoldable pub panic_calls : CString → List Call
panic_calls message =
    set_color white red
    ∷ say "\n"
    ∷ say "================================================================================"
    ∷ say "                            KERNEL PANIC                                        "
    ∷ say "================================================================================"
    ∷ say "\n"
    ∷ ink white
    ∷ say "Error: "
    ∷ print message
    ∷ say "\n\nSystem halted. Please restart your computer.\n"
    ∷ []

unfoldable pub kernel_panic : CString → System → Outcome
kernel_panic message s = halted (draw (panic_calls message) s)

abbrev pub exception_messages : List String
exception_messages =
    "Division By Zero" ∷ "Debug" ∷ "Non Maskable Interrupt" ∷ "Breakpoint" ∷ "Overflow"
    ∷ "Bound Range Exceeded" ∷ "Invalid Opcode" ∷ "Device Not Available" ∷ "Double Fault"
    ∷ "Coprocessor Segment Overrun" ∷ "Invalid TSS" ∷ "Segment Not Present" ∷ "Stack-Segment Fault"
    ∷ "General Protection Fault" ∷ "Page Fault" ∷ "Reserved" ∷ "x87 Floating-Point Exception"
    ∷ "Alignment Check" ∷ "Machine Check" ∷ "SIMD Floating-Point Exception"
    ∷ "Virtualization Exception" ∷ "Control Protection Exception" ∷ "Reserved" ∷ "Reserved"
    ∷ "Reserved" ∷ "Reserved" ∷ "Reserved" ∷ "Reserved" ∷ "Hypervisor Injection Exception"
    ∷ "VMM Communication Exception" ∷ "Security Exception" ∷ "Reserved" ∷ []

-- The fields of `struct interrupt_frame` that the handler reads.
pub record Frame : Type 0 where
  pub int_no : ℕ
  pub err_code : ℕ
  pub eip : ℕ
  pub cs : ℕ
  pub eflags : ℕ

unfoldable pub exception_calls : Frame → List Call
exception_calls frame =
    set_color white red
    ∷ say "\n\n*** EXCEPTION: "
    ∷ say (get_or exception_messages frame.int_no "")
    ∷ say " ***\n"
    ∷ ink white
    ∷ say "Error Code: "
    ∷ print_hex frame.err_code
    ∷ say "\n"
    ∷ say "EIP: "
    ∷ print_hex frame.eip
    ∷ say " CS: "
    ∷ print_hex frame.cs
    ∷ say " EFLAGS: "
    ∷ print_hex frame.eflags
    ∷ say "\n"
    ∷ []

unfoldable pub isr_handler : Frame → System → Outcome
isr_handler frame s =
    if ltb frame.int_no 32
    then kernel_panic (codes "Unhandled CPU Exception") (draw (exception_calls frame) s)
    else returned s
