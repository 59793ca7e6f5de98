-- ===== src/Lib.antt =====
-- Models and proofs for NEMU, the full-system emulator of this repository (nemu/).
--
-- The emulator runs a guest program instruction by instruction. Each instruction is made of
-- register-transfer operations, which reach the guest's memory through virtual and physical addresses;
-- addresses outside the memory are routed to maps, behind which are the devices. A debugger stops the
-- machine, evaluates expressions over registers and memory, and watches them. The files:
--
-- * Watchpoint (nemu/src/monitor/debug/watchpoint.c): the pool of 32 watchpoints. `Pool` holds the
--   static variables; init_wp_pool, new_wp, free_wp, no_to_wp, watchpoint_display and check_wp_changed
--   are functions on it. A pointer into the pool is an index, and a list of the pool is followed with
--   fuel: 33 steps, one more than there are slots. `expr` is an argument of check_wp_changed.
-- * Expr (nemu/src/monitor/debug/expr.c): the rules of the lexer and make_token (Expr/Lexer, Expr/Token),
--   check_parentheses and eval (Expr/Eval), expr (Expr). Regular expressions are rows of character
--   classes, matched greedily; `tokens[p..q]` is a list. The lexer has one unit of fuel for each
--   character and eval one for each token and one more. Logging is left out, and test_expr, which
--   reads a file of cases, is not modelled.
-- * Memory (nemu/src/memory/paddr.c, nemu/include/memory/vaddr.h, nemu/src/device/io,
--   nemu/include/device/map.h): the guest's memory as bytes (Memory/Paddr), and maps, their callbacks,
--   the devices' memory, memory-mapped and port accesses (Memory/IoMap), for a guest of 32 bits.
--   `PMEM_BASE` is a parameter. init_mem, which fills the memory with random numbers, is not modelled.
-- * Device (nemu/src/device/keyboard.c): the queue of key codes. SDL's table of scan codes is a
--   parameter. alarm.c (Device/Alarm) is the table of
--   the signal's handlers, whose effect is an argument; Device/Ports has the handlers of serial.c and
--   timer.c, with the host's time as an argument. The host's timer and its signal are not modelled.
--   Device/Update is device_update of device.c, over a list of the events that SDL has queued, and
--   Device/Maps is init_device with the maps and the callbacks that the devices register.
-- * Rtl (nemu/src/engine/interpreter, nemu/include/rtl, nemu/include/cpu): the arithmetic of c_op.h on
--   words of 32 bits (Rtl/COp), the state of the processor and of `DecodeExecState` (Rtl/Machine), and
--   the operations of rtl-basic.h and pseudo.h (Rtl/Basic). A `rtlreg_t *` is a location. The
--   operations that only a 64-bit guest has, host_lm and host_sm are not modelled.
-- * Riscv32, Mips32 (nemu/src/isa/riscv32, nemu/src/isa/mips32): bit fields, operand decoders, execution
--   helpers and isa_exec_once of the two guests, and reset with the built-in image. What a local
--   variable of C holds before it is set is an argument, `garbage`. Register names, the logo and the
--   stubs for paging, interrupts and differential testing are not modelled.
-- * Monitor (nemu/src/monitor/cpu-exec.c): cpu_exec, over what isa_exec_once, difftest_step,
--   check_wp_changed and device_update do, which are arguments. A round is the body of the loop, and the
--   loop recurs on its number of instructions. Printing, the measured time and the debug build's log of
--   instructions (log_bytebuf, log_asmbuf and asm_print, log.c) are left out. Monitor/Rounds states what
--   a round and a sequence of rounds are, Monitor/Stops what cpu_exec makes of them.
-- * Ui (nemu/src/monitor/debug/ui.c): the command table, the commands and ui_mainloop, on the pool of
--   Watchpoint, with cpu_exec, expr and guest memory as arguments. strtok gives a token and the rest of
--   the line; the arguments of `d` are followed with one unit of fuel for each character.
-- * Difftest (nemu/src/monitor/difftest/dut.c): the two ways to skip, and difftest_step, over a reference
--   that is an argument. init_difftest, which loads the reference, is not modelled.
-- * X86 (nemu/src/isa/x86): the registers with their low words and bytes, rtl_lr and rtl_sr, and
--   isa_reg_str2val (X86/Reg), reg_test (X86/RegTest), operands in registers and memory with the ModR/M
--   and SIB bytes (X86/Modrm, decode.c), the decoders of local-include/decode.h (X86/Decode), the helpers
--   of exec/ that are written (X86/Arith, X86/Move), and exec.c and init.c (X86/Exec). A helper that is
--   only a TODO() stops; those of arith.h and logic.h are one definition, exec_unwritten. EFLAGS are not
--   written yet in the source (X86/Eflags). fetch_decode_exec has one unit of fuel for each prefix and
--   one more. isa_reg_display, the logo and the stubs for interrupts and paging are not modelled.
--   X86/Spec and X86/Modrm/Address state the manual's view of `mov`, of addresses and of their encoding,
--   which X86/Step compares with a round of the interpreter.
-- * QemuDiff (nemu/tools/qemu-diff/src): the reference machine QEMU behind gdb's protocol. The connection
--   and protocol.c, a copy of another project's client, are parameters. A copy into its memory has one unit
--   of fuel for each byte and one more, while a round takes 1500 bytes. The start of QEMU is not modelled.
-- * GenExpr (nemu/tools/gen-expr/gen-expr.c): the generator of random expressions and its main. rand is a
--   list of numbers, and a run stops where it ends; fuel bounds the depth of the recursion and the rounds
--   of main's inner loop. What the files, the C compiler and the built program give is a parameter.
--   GenExpr/Grammar and GenExpr/Evaluated state the grammar and the value of what is generated, with which
--   expr is compared.
--
-- Base has what they share: tests on numbers, arrays as lists and functions, integers, C's functions on
-- strings, bytes of a memory, masks, and `Result`. A run of the program that ends early is a value of
-- `Result`: `stop assertion` is a failed assert, a panic or a TODO(), `stop undefined` is what C leaves
-- undefined, such as an access outside an array, and `stop out_of_fuel` is the model's own.
pub mod Base
pub mod Watchpoint
pub mod Expr
pub mod GenExpr
pub mod Memory
pub mod Device
pub mod Rtl
pub mod Monitor
pub mod Ui
pub mod Difftest
pub mod Riscv32
pub mod Mips32
pub mod X86
pub mod QemuDiff
