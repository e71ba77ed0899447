-- ===== src/Lib.antt =====
-- WindogeOS: the functional core of the kernel (helper/, kernel/) and of its programs (apps/) as
-- executable definitions, with the theorems that they meet. Each C function is one definition of the
-- same name.
--
-- * `Memory` models helper/string/memory.c over one byte memory, a function from addresses.
-- * `Math` models helper/math/basic.c and helper/math/dataconvert.c; words are natural numbers with
--   the wrap-around written out. Loops run on the rounds left.
-- * `Strings` models helper/string/string.c: texts that are read are lists of bytes, what is written
--   goes to a memory indexed from the pointer on. The digit loops run on fuel 20 for 64 bits, 10 for
--   an `int` and 5 for 16 bits, one round for each decimal digit;
--   the search for the end of a text has fuel for one round more than the text has bytes.
-- * `Scheduler` models helper/core/execute/scheduler.c: the task table as a list of eight records.
--   The other kernel parts that it calls (registers, file system, workspaces, address spaces, the ELF
--   loader) are a record of functions over a state of their own, `Scheduler/Services`. The switch of the
--   terminal in kernel/tui/workspaces.c, which calls back into the task table, is taken apart around
--   that call.
-- * `Vfs` models helper/drivers/filesystem/vfs.c over the disk driver and the exFAT driver, the record
--   `Vfs/Backend` of functions over a state of theirs. A local buffer that may be read before it is
--   written is a parameter `junk`. The copy loop runs on the rounds left.
-- * `Pages` models the page allocator of helper/core/memory/mmu.c, the release of user page tables, and
--   kmalloc of helper/core/memory/kernel.c, over a memory of 64-bit words. The count of free pages has
--   fuel for one round more than there are free pages.
-- * `Clock` models helper/time/time.c over a chip, a state with a function that reads a register. The
--   wait for the end of an update has fuel for one round more than the chip reports one.
-- * `Lz4` models kernel/kutil/lz4_pack.c over the four file functions that it calls, the record
--   `Lz4/Files`; `vfs_files` is that record made of `Vfs`. What is relied on of these functions is the
--   record `FileLaws`: each does its work, or it fails and the state is one in which the disk fails.
--   `Lz4/OnVfs` traces this, for names in the current directory, to the same laws of the exFAT driver,
--   which is a parameter. A function that can fail is an action with an outcome. Loops over bytes have
--   fuel for one round more than there are bytes.
-- * `Elf` models system_load_elf_args of helper/core/execute/elf.c and helper/core/execute/arguments.h
--   over what they call, the record `Elf/Machine`. Addresses are natural numbers; a segment's pages are
--   counted down, and the search for notes has fuel for one round more than the segment has bytes.
-- * `Calendar` models the date functions of apps/packages/calendar.c; the search for the year has fuel
--   for one round more than there are days. The year is an `int`, and there is no result where it
--   would overflow, which takes more than 2^55 seconds.
-- * `Access` models the path check of helper/core/hfs.c; it calls the functions of `Strings`.
--
-- `Common` holds shared names, lists over native numbers, integers and memories; `Tests` holds runs
-- at concrete inputs. Not modelled: inline assembly, port input and output, logging, interrupt entry,
-- drawing and the other applications. Null pointers are `none` where the code tests for them.
pub mod Common
pub mod Memory
pub mod Math
pub mod Strings
pub mod Scheduler
pub mod Access
pub mod Vfs
pub mod Pages
pub mod Clock
pub mod Lz4
pub mod Elf
pub mod Calendar
pub mod Tests
