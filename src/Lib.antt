-- ===== src/Lib.antt =====
-- RustOS is a kernel for x86-64 in Rust. This library models the parts of src/ that carry its own
-- logic as functions of explicit state, and proves what makes them correct.
--
-- Parts and files (paths from the repository's root):
--
-- * Pipes, src/syscall/pipe.rs. Pipe.antt has `struct Pipe`, a ring of 4096 bytes with `read` and
--   `write`; Pipe/Window.antt the bytes that a ring holds; Pipe/Reading.antt and Pipe/Writing.antt
--   what one call does to them; Pipe/Fifo.antt sequences of calls against a queue. Pipe/Table.antt
--   has `PipeTable` and the functions on the global table. Pipe/Table/Channel.antt specifies the
--   calls on channels (bytes and two ends), and the files beside it prove that the table implements
--   that specification.
--
-- * File descriptors, src/syscall/filedesc.rs and `sys_pipe` of src/syscall/handler.rs.
--   Filedesc.antt has `FileDescriptorTable` (FdTable) and its operations, with the pipe table that a
--   close reaches. Filedesc/Slots.antt reads a table as a function from numbers to open files; the
--   other files treat opening, closing, `sys_pipe`, `lseek`, and what happens to a pipe when one of
--   two descriptors of its end is closed. `FdTable.open` is `open_file`, since each of `open`, `dup`,
--   `open_pipe_read` and `open_pipe_write` repeats one loop, `install`.
--
-- * File locks, src/flock.rs. Flock.antt has `LockTable` and `flock`, Flock/Ranges.antt the
--   byte-range locks.
--
-- * Processes, src/process/mod.rs. Process.antt has `ProcessManager` with creation, termination, exit
--   and wait, and Process/Signals.antt the signals. A `Kernel` holds the process manager with the two
--   tables that its calls reach: the slots of the kernel stacks in use (src/gdt.rs) and the
--   descriptor tables of the processes. Process/Lookup.antt reads the list of processes as a function
--   from pids; Process/Reach.antt has sequences of calls.
--
-- * Resource limits, src/rlimit.rs. Rlimit.antt has the table of limits with its defaults; `set` is
--   `set_limit`. Rlimit/Limits.antt has sequences of requests.
--
-- * Futexes, src/futex.rs. Futex.antt has `wait`, as `park` (up to its loop) and `poll` (one round of
--   the loop), so that other calls can come between, and `wake`. The value of the futex word and the
--   clock are arguments.
--
-- * Shell parser, src/shell_parser.rs. ShellParser/Syntax.antt has `Token` and `Cmd`,
--   ShellParser/Tokenizer.antt `tokenize` and `join_simple`, ShellParser/Parser.antt the functions of
--   `Parser` on the tokens from `pos` on, and ShellParser/Outcome.antt their results.
--   ShellParser/Canonical.antt says which command trees the parser can build, Total.antt beside it
--   that the parser ends, and Print.antt, Steps.antt and RoundTrip.antt that it reads a printed tree.
--
-- * Scheduler, src/process/scheduler.rs, and the queues of the CPUs, src/smp.rs. Scheduler.antt has
--   `Scheduler` with its queue, Scheduler/Sleeping.antt the sleepers, and Scheduler/Ticks.antt the
--   ticks and the calls that switch processes. A `System` is the scheduler with the kernel of
--   Process.antt and the CPUs. A call that takes the lock of the process manager is told whether its
--   caller holds it, and `hangs` if so. Smp.antt has `CpuState`, routing and stealing. The other files
--   beside these treat the pick, what the calls keep true, the calls that hang, the
--   wake-ups (Scheduler/Wakeups/Single.antt says what is promised), and the weights.
--
-- * Seccomp, src/seccomp.rs. Seccomp/Insn.antt has the instructions and the data that a filter reads,
--   Seccomp/Machine.antt `Vm::run` (`execute` is one round of its loop), Seccomp/Table.antt the table
--   of filters and `check`, and Seccomp/Allowlist.antt the builder of allow-lists.
--   Seccomp/Machine/Runs.antt has a relation without the step limit, Seccomp/Table/Slots.antt the
--   table as a map.
--
-- * TCP, src/net/tcp.rs, over the loopback interface of src/net/loopback.rs. Tcp/Segment.antt has
--   addresses and segments, Tcp/Endpoint.antt `TcpEndpoint` with `process_ack` and `on_rto`,
--   Tcp/Input.antt `process_segment_for` (`process_segment`), Tcp/Table.antt `TcpTable`, Tcp/Wire.antt
--   the bytes of a packet (with src/net/ip.rs and `ipv4_input` of src/net/socket.rs), Tcp/Emit.antt
--   `emit`, `drain_pending` and `tcp_input`, Tcp/Calls.antt the calls, and Tcp/Retransmit.antt
--   `retransmit_tick`. Since `emit` returns after
--   the packet has been received and answered, an answer is a nested `emit`, one round each. The files
--   below Tcp/Calls treat a handshake and one `send`, Tcp/Stream.antt sequences of calls.
--
-- * Kernel log, src/klog.rs. Klog.antt has `KernelLog`; the time and the formatting of a line are
--   arguments. Klog/Ring.antt reads the ring as the list of everything logged.
--
-- * Prelude.antt has what the parts share: Boolean tests and indexed lists over the native numbers,
--   `Run` for code that may panic, `Result`, integers, and maps with comparable keys.
--
-- State behind a lock is an argument and a result of each function that locks it for its whole call.
-- An index out of range, `unwrap` of nothing and arithmetic that overflows are `panic` of `Run`
-- (`overflows` in the scheduler), as in the debug profile that the build uses. Bytes, offsets, pids
-- and signal numbers are natural numbers; a signed offset or exit code is `ℤ`. A `BTreeMap` is a map without the order of its iteration. Paths
-- are texts.
--
-- Bounds and fuel: every loop runs over a list or over a number of rounds that the source fixes (the
-- pipe's byte count, the 253 descriptors from 3 on, the 31 signals, a round for each sleeper). The
-- functions of the shell parser call each other and run on fuel, one unit for a call: 4 for each token
-- and 3 more are enough. A filter runs for the 4,096 rounds of the source's limit. `emit` of TCP runs on
-- rounds too: three for `connect` and two for `send` are enough, and a reset storm uses up any number.
--
-- Not modelled: memory and paging, page tables and copy on write (so `fork` and `Process::clone` too),
-- interrupts, context switches, the mapping of the pages of a kernel stack, device drivers, file
-- systems, the network but for TCP on loopback, the start of the other CPUs, the shell's evaluator and the programs it starts.
-- Calls on the CPUs run one after another. Of a process and of a CPU only the fields are kept that the
-- modelled calls read or write. Of
-- `sys_pipe` the test of the user pointer and the write through it are left out.
pub mod Prelude
pub mod Filedesc
pub mod Flock
pub mod Futex
pub mod Klog
pub mod Pipe
pub mod Process
pub mod Rlimit
pub mod Scheduler
pub mod Seccomp
pub mod ShellParser
pub mod Smp
pub mod Tcp
