-- ===== src/Lib.antt =====
-- A verification library for the guest kernel of mcr, a runtime that runs Linux programs on another
-- host. The guest kernel (crates/mcr-task) keeps the guest's processes and tasks, and answers the
-- task syscalls; its numbers and argument records come from the syscall ABI (crates/mcr-sys). The
-- guest memory (crates/mcr-memory) keeps the areas that the guest has mapped and the host memory
-- behind them, and answers the memory syscalls.
--
-- Sys stands for crates/mcr-sys. Sys/Errno is errno.rs, Sys/Return is return_value.rs with the
-- outcome type of dispatcher.rs, and Sys/Args is task.rs. Sys/Return/RoundTrip is about the
-- register encoding of returns.
--
-- Task stands for crates/mcr-task. The data: Task/Registers is registers.rs, Task/Program is
-- program.rs, Task/Fd is fd.rs, Task/Process is process.rs, Task/State is task.rs with the state of
-- kernel/mod.rs, and Task/Error is errors.rs. The operations: Task/Kernel is kernel/mod.rs,
-- Task/Wait and Task/Futex are kernel/wait.rs, Task/Mask, Task/Signal, Task/Kill and Task/Exit are
-- kernel/signal.rs, Task/Clone is kernel/clone.rs, Task/Exec is kernel/exec.rs, and Task/Syscalls
-- is kernel/syscalls.rs. A method of `GuestKernel` is a function of the same name. One that changes
-- the kernel is a `Call`: it takes the kernel last and returns its result with the new kernel.
-- `task_mut` and `process_mut` are `edit_task` and `edit_process`, and a panic is `none`.
--
-- Memory stands for crates/mcr-memory. Memory/Error is the errors of src/lib.rs, Memory/Ranges is
-- src/ranges.rs, Memory/Vma the areas and the arguments of mmap, and Memory/Map the map of areas,
-- which the source searches, cuts and joins in methods of `GuestMemory`. Memory/State is
-- `GuestMemory` with the host memory behind it (crates/mcr-win/src/memory.rs, its checks before the
-- calls of the operating system), Memory/Allocate and Memory/Reserve the methods on host memory,
-- Memory/Mapping the insertion of areas, Memory/Calls mmap, munmap, mprotect and madvise,
-- Memory/Brk `set_brk`, Memory/Read and Memory/Write the bytes of the guest, and Memory/Intrinsics
-- is src/intrinsics.rs. A method that changes the memory is an `Action`: it takes the memory last,
-- and gives a result, an error or a panic (an `expect`, or a slice out of bounds) with the memory
-- as it then is. A buffer of host memory is a number in place of its address, its length, its
-- bytes, and whether another memory holds it too (`Arc::strong_count`); the memory keeps the
-- protection that the operating system has for each page of each number. A change of protection that
-- the operating system refuses leaves its pages as they were. A `usize` has 64 bits, so the conversions between `u64` and `usize`
-- are left out with their errors; `value & !(2^k - 1)` is the value less its remainder; a
-- subtraction of which the source has no check is wrapping. The loop of mmap recurs on the retries
-- that are left, 64 at first; the loops of `copy_guest` and `write_guest` recur on fuel, the number
-- of bytes, of which each pass handles at least one.
--
-- A `BTreeMap` is an association list in the order of its keys (Prelude/OrdMap) and a
-- `BTreeSet<u32>` a list in ascending order (Prelude/OrdSet). Ids, addresses and masks are natural
-- numbers; the 64-bit complement and the casts write their wrap-around out. The loops of
-- crates/mcr-task run over a list that is read before the loop, so they are structural recursion and need no fuel.
--
-- The proofs. Task/Index states that the queues agree with the states of the tasks. Task/Invariant
-- states when the tables are well formed (`Inv`): the queues agree with the states, an entry stands
-- under its own id and below the next id, a task has its process, parents and children agree, a
-- parent is older than its child, and no mask holds SIGKILL or SIGSTOP. Task/Moves is a step
-- relation of small moves: a change of a state, an edit that keeps the identity of an entry, a used
-- pid, a fork, a new thread, and a reaped child. Task/Invariant/Edits, Growth, Fork and Reap show
-- what each move does, and Task/Preservation puts them together. Task/Refines shows for each call
-- that it is a sequence of moves, and Task/Boot, Task/Pending, Task/Zombies, Task/Forked, Task/Woken
-- and Task/Guarantees are about whole calls. Task/Reachable is about the kernels that a run comes to,
-- from a new kernel by replies of the dispatcher and the calls of the host that `Step` lists; what a
-- host changes through `task_mut` and `process_mut`, and its other calls, are not among them.
-- Task/Examples applies the theorems to a kernel that has booted, forked and lost its child.
--
-- Memory/Map/Order states that areas are in order, not empty and disjoint (`Ordered`), and that a
-- lookup then finds the one area of an address. The other modules of Memory/Map show what the
-- operations on areas do to each address (`cell_at`). Memory/Quiet is about calls that keep the
-- attributes of every address, its protection and its kind. Quiet/Bind takes a run apart by its
-- steps, and Quiet/Brk is about the bounds that `set_brk` leaves. Memory/Bytes is about calls that
-- keep the byte at every address (`content`): Bytes/Places is about changes of areas and
-- allocations, Bytes/Unshare and Bytes/Detach about the end of sharing, Bytes/Protect about mprotect,
-- and Bytes/Pages about the protections of the operating system. Memory/Refines puts these together:
-- munmap, mprotect and mmap are changes of a map from addresses to attributes (`view`), and
-- Mprotect/Whole adds the bytes and the pages. Of mmap, munmap, `insert_mapping` and `set_brk`, and
-- of the reservation of host memory below them, nothing is said of the bytes: after an error of the
-- operating system the source may lose them. Memory/Read/Each and Whole are about reading byte by
-- byte. Memory/Examples applies the theorems to a memory with two areas.
--
-- Parameters: the operating system (`Host`), whose answer to a call may depend on the number of the
-- call, and the granularity of its allocations, 64 KiB on Windows; the loader, which stands for
-- crates/mcr-elf and gives an image or an error, and the readiness callback of `resume_fd_waiters`,
-- which may keep a state of its own.
--
-- Not modelled: the host worker pools, trace fields and error messages; of the guest memory, its
-- clones, its creation from an image, slices, C strings, code patches and the dispatch of its
-- syscalls; and the crates for files, network, images, the JIT, snapshots, the host and the command
-- line.
pub mod Prelude
pub mod Sys
pub mod Task
pub mod Memory
