-- ===== src/Scheduler/Spawn.antt =====
-- helper/core/execute/scheduler.c: `scheduler_spawn_elf`.
use windoge_os.Common.{
  ℕ, ◌+◌, ◌%◌, ◌^◌, Bool, true, false, not, ◌&&◌, ◌||◌, Option, none, some, List, [], ◌∷◌, ltb, leb,
  ◌==◌, if◌then◌else◌, set,
}
use windoge_os.Common.Int.{ℤ, pos, negsuc}
use windoge_os.Scheduler.Services.{Services, Loaded, LinuxContext}
use windoge_os.Scheduler.State.{
  Frame, Task, Sched, zero_task, page_of, task_at, rest_of, find_slot, scheduler_save_fs_context,
  scheduler_restore_fs_context, scheduler_restore_interrupts, switch_user_pml4,
}

abbrev pub zero_frame : Frame
zero_frame = record {
  r15 = 0;
  r14 = 0;
  r13 = 0;
  r12 = 0;
  r11 = 0;
  r10 = 0;
  r9 = 0;
  r8 = 0;
  rbp = 0;
  rdi = 0;
  rsi = 0;
  rdx = 0;
  rcx = 0;
  rbx = 0;
  rax = 0;
  vector = 0;
  error_code = 0;
  rip = 0;
  cs = 0;
  rflags = 0;
  rsp = 0;
  ss = 0;
}

-- The checks before interrupts are off. `argv` is `none` where it is null.
unfoldable pub arguments_ok : List ℕ → ℤ → Option (List (List ℕ)) → ℕ → Bool
arguments_ok [] argc argv workspace = false
arguments_ok (c ∷ path) (negsuc n) argv workspace = false
arguments_ok (c ∷ path) (pos n) none workspace = (n == 0) && ltb workspace 4
arguments_ok (c ∷ path) (pos n) (some args) workspace = leb n 32 && ltb workspace 4

unfoldable pub first_frame : ℕ → Loaded → Frame
first_frame argc l = record zero_frame {
  rdi = argc;
  rsi = l.user_argv;
  vector = 32;
  rip = l.entry;
  cs = 0x23;
  rflags = 0x202;
  rsp = l.user_stack;
  ss = 0x1B;
}

-- The heap starts behind the program where the loader says so.
unfoldable pub first_linux_context : LinuxContext → Loaded → LinuxContext
first_linux_context c l =
    if l.linux_abi && ltb c.heap_start l.heap_base && ltb l.heap_base 0x700000000000
    then record c { heap_start = l.heap_base; program_break = l.heap_base }
    else c

unfoldable pub pid_after : ℕ → ℕ
pid_after pid = if (pid + 1) % 2 ^ 32 == 0 then 2 else (pid + 1) % 2 ^ 32

abbrev pub argc_value : ℤ → ℕ
argc_value (pos n) = n
argc_value (negsuc n) = 0

module _ {W : Type 0} (sv : Services W) where
  -- Back to the caller with -1: the directory and the interrupts as they were.
  unfoldable pub spawn_fail : ℕ → Sched W → Option ℕ × Sched W
  spawn_fail flags s =
      let w : W = scheduler_restore_fs_context sv (task_at s.tasks s.current) s.world in
      (none, record s { world = scheduler_restore_interrupts sv flags w })

  -- The slot becomes a task.
  unfoldable pub spawn_finish : ℕ → ℕ → ℤ → ℕ → Loaded → Sched W → Option ℕ × Sched W
  spawn_finish flags slot argc pml4 l s =
      let task : Task = record (task_at s.tasks slot) {
        active = true;
        pid = s.next_pid;
        cr3 = pml4;
        gs_base = 0;
        kernel_gs_base = sv.user_kernel_gs_base s.world;
        linux_abi = l.linux_abi;
        frame = some (first_frame (argc_value argc) l);
        linux_context = first_linux_context sv.linux_init l;
        fpu_state = (task_at s.tasks 0).fpu_state;
      } in
      let tasks : List Task = set s.tasks slot task in
      let w : W = scheduler_restore_fs_context sv (task_at tasks s.current) s.world in
      (
        some s.next_pid,
        record s {
          tasks = tasks;
          next_pid = pid_after s.next_pid;
          world = scheduler_restore_interrupts sv flags w;
        },
      )

  -- A new address space, and the program in it.
  unfoldable pub spawn_load :
      ℕ → ℕ → List ℕ → ℕ → ℤ → Option (List (List ℕ)) → Sched W → Option ℕ × Sched W
  spawn_load flags slot path size argc argv s =
      let parent : ℕ = page_of (sv.read_cr3 s.world) in
      let (pml4, w1) = sv.create_user_pml4 s.world in
      if pml4 == 0
      then spawn_fail flags (record s { world = w1 })
      else let (result, program, w2) =
          sv.load_elf path size argc argv (switch_user_pml4 sv pml4 w1) in
        let w3 : W = switch_user_pml4 sv parent w2 in
        let task : Task = record (task_at s.tasks slot) { program = program } in
        let s' : Sched W = record s { tasks = set s.tasks slot task; world = w3 } in
        elim result [
          | none ↦ spawn_fail flags (record s' { world = sv.destroy_user_pml4 pml4 w3 })
          | some l ↦ spawn_finish flags slot argc pml4 l s'
        ]

  -- The slot with what the new task inherits from the running one.
  unfoldable pub spawn_prepare : ℕ → ℕ → Sched W → Sched W
  spawn_prepare slot workspace s =
      let parent : Task = scheduler_save_fs_context sv s.world (task_at s.tasks s.current) in
      let cleared : List Task =
        set (set s.tasks s.current parent) slot (record zero_task { workspace_id = workspace }) in
      let from : Task = task_at cleared s.current in
      let task : Task = record (task_at cleared slot) {
        drive = from.drive;
        fs_context_valid = from.fs_context_valid;
        cwd = from.cwd;
      } in
      record s { tasks = set cleared slot task }

  -- The new pid, or `none` for -1. `out_pid` tells whether that pointer is given.
  unfoldable pub scheduler_spawn_elf :
      List ℕ → ℤ → Option (List (List ℕ)) → ℕ → Bool → Sched W → Option ℕ × Sched W
  scheduler_spawn_elf path argc argv workspace out_pid s =
      if not (arguments_ok path argc argv workspace && out_pid)
      then (none, s)
      else let (flags, w) = sv.disable_interrupts s.world in
        elim (find_slot (λ t. not t.active) (rest_of s.tasks) 1) [
          | none ↦ (none, record s { world = scheduler_restore_interrupts sv flags w })
          | some slot ↦
              let (info, w1) = sv.fs_get_info path w in
              let s' : Sched W = record (spawn_prepare slot workspace (record s { world = w })) {
                world = w1;
              } in
              elim info [
                | none ↦ spawn_fail flags s'
                | some (size, is_dir) ↦
                    if is_dir || (size == 0) || ltb 16777216 size
                    then spawn_fail flags s'
                    else spawn_load flags slot path size argc argv s'
              ]
        ]
