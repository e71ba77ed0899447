-- ===== src/Scheduler/State.antt =====
-- helper/core/execute/scheduler.c: the task table, the timer's switch, exit, kill and the list.
-- `log` and the endless loops behind calls that do not return have no model.
use windoge_os.Common.{
  ℕ, zero, suc, ◌+◌, ◌-◌, ◌*◌, ◌/◌, ◌%◌, ◌^◌, Bool, true, false, not, ◌&&◌, Option, none, some,
  List, [], ◌∷◌, ◌++◌, ltb, leb, ◌==◌, if◌then◌else◌, length, get_or, set, replicate,
}
use windoge_os.Scheduler.Services.{Services, Program, LinuxContext}

-- `interrupt_frame_t`
pub record Frame : Type 0 where
  pub r15 : ℕ
  pub r14 : ℕ
  pub r13 : ℕ
  pub r12 : ℕ
  pub r11 : ℕ
  pub r10 : ℕ
  pub r9 : ℕ
  pub r8 : ℕ
  pub rbp : ℕ
  pub rdi : ℕ
  pub rsi : ℕ
  pub rdx : ℕ
  pub rcx : ℕ
  pub rbx : ℕ
  pub rax : ℕ
  pub vector : ℕ
  pub error_code : ℕ
  pub rip : ℕ
  pub cs : ℕ
  pub rflags : ℕ
  pub rsp : ℕ
  pub ss : ℕ

-- `scheduler_task_t` without the kernel stack's bytes; `frame` is `none` for a null pointer.
pub record Task : Type 0 where
  pub pid : ℕ
  pub active : Bool
  pub workspace_id : ℕ
  pub cr3 : ℕ
  pub gs_base : ℕ
  pub kernel_gs_base : ℕ
  pub linux_abi : Bool
  pub fs_context_valid : Bool
  pub drive : ℕ
  pub cwd : List ℕ
  pub frame : Option Frame
  pub linux_context : LinuxContext
  pub program : Program
  pub fpu_state : ℕ → ℕ

abbrev pub task_limit : ℕ
task_limit = 8

abbrev pub msr_gs_base : ℕ
msr_gs_base = 0xC0000101

abbrev pub msr_kernel_gs_base : ℕ
msr_kernel_gs_base = 0xC0000102

-- A task as `memset(task, 0, sizeof(*task))` leaves it.
abbrev pub zero_task : Task
zero_task = record {
  pid = 0;
  active = false;
  workspace_id = 0;
  cr3 = 0;
  gs_base = 0;
  kernel_gs_base = 0;
  linux_abi = false;
  fs_context_valid = false;
  drive = 0;
  cwd = [];
  frame = none;
  linux_context = record { heap_start = 0; program_break = 0; others = λ _. 0 };
  program = record { regions = []; stack_base = 0; stack_pages = 0 };
  fpu_state = λ _. 0;
}

-- `v & ~0xFFF`
abbrev pub page_of : ℕ → ℕ
page_of v = v / 4096 * 4096

pub record Sched (W : Type 0) : Type 0 where
  pub tasks : List Task
  pub current : ℕ
  pub next_pid : ℕ
  pub initial_stack_top : ℕ
  pub world : W

abbrev pub task_at : List Task → ℕ → Task
task_at ts i = get_or ts i zero_task

-- The steps left, and the step: `for (step = 1; step <= SCHEDULER_TASK_LIMIT; step++)`.
unfoldable pub find_loop : ℕ → ℕ → List Task → ℕ → ℕ
find_loop zero step ts after = 0
find_loop (suc n) step ts after =
    let index : ℕ = (after + step) % task_limit in
    let rest : ℕ = find_loop n (suc step) ts after in
    if (task_at ts index).active then index else rest

unfoldable pub scheduler_find_next : List Task → ℕ → ℕ
scheduler_find_next ts after = find_loop task_limit 1 ts after

-- `scheduler_list`: the indices left, the index, and the count with what was written so far.
pub record TaskInfo : Type 0 where
  pub pid : ℕ
  pub state : ℕ
  pub workspace_id : ℕ

unfoldable pub list_loop : List Task → ℕ → ℕ → ℕ → ℕ → List TaskInfo → ℕ × List TaskInfo
list_loop [] i current capacity count out = (count, out)
list_loop (t ∷ ts) i current capacity count out =
    let entry : TaskInfo = record {
      pid = t.pid;
      state = if i == current then 2 else 1;
      workspace_id = t.workspace_id;
    } in
    let out' : List TaskInfo = if ltb count capacity then out ++ (entry ∷ []) else out in
    list_loop ts (suc i) current capacity (if t.active then suc count else count)
      (if t.active then out' else out)

abbrev pub rest_of : List Task → List Task
rest_of [] = []
rest_of (t ∷ ts) = ts

-- Loops over the table from index 1: the first slot that passes a test.
unfoldable pub find_slot : (Task → Bool) → List Task → ℕ → Option ℕ
find_slot test [] i = none
find_slot test (t ∷ ts) i =
    let rest : Option ℕ = find_slot test ts (suc i) in if test t then some i else rest

module _ {W : Type 0} (sv : Services W) where
  unfoldable pub scheduler_restore_interrupts : ℕ → W → W
  scheduler_restore_interrupts flags w = if flags / 2 ^ 9 % 2 == 1 then sv.sti w else w

  unfoldable pub switch_user_pml4 : ℕ → W → W
  switch_user_pml4 pml4 w = if pml4 == 0 then w else sv.write_cr3 (page_of pml4) w

  unfoldable pub scheduler_save_fs_context : W → Task → Task
  scheduler_save_fs_context w task = elim (sv.fs_dirname w) [
    | none ↦ record task { fs_context_valid = false }
    | some dir ↦
        if leb 260 (length dir)
        then record task { fs_context_valid = false }
        else record task { cwd = dir; drive = sv.fs_current_drive w; fs_context_valid = true }
  ]

  unfoldable pub scheduler_restore_fs_context : Task → W → W
  scheduler_restore_fs_context task w =
      if not task.fs_context_valid
      then w
      else let (done, w') = sv.fs_select_drive task.drive w in
        if not done then w' else (sv.fs_chdir task.cwd w').1

  unfoldable pub scheduler_activate : ℕ → Sched W → Sched W
  scheduler_activate index s =
      let task : Task = task_at s.tasks index in
      let stack : ℕ = if index == 0 then s.initial_stack_top else sv.task_stack_top index in
      let w1 : W = sv.gdt_set_kernel_stack stack (switch_user_pml4 task.cr3 s.world) in
      let w2 : W = sv.select_linux_abi task.linux_abi (scheduler_restore_fs_context task w1) in
      let w3 : W = if task.linux_abi then sv.linux_restore task.linux_context w2 else w2 in
      let w4 : W =
        sv.wrmsr msr_kernel_gs_base task.kernel_gs_base (sv.wrmsr msr_gs_base task.gs_base w3) in
      let w5 : W = sv.fxrstor task.fpu_state w4 in
      record s {
        current = index;
        world =
            sv.workspace_load task.workspace_id (task.workspace_id == sv.current_terminal_id w5) w5;
      }

  unfoldable pub scheduler_init : Sched W → Sched W
  scheduler_init s =
      let w : W = s.world in
      let first : Task = scheduler_save_fs_context w (record zero_task {
        active = true;
        cr3 = page_of (sv.read_cr3 w);
        gs_base = sv.rdmsr msr_gs_base w;
        kernel_gs_base = sv.rdmsr msr_kernel_gs_base w;
      }) in
      record s {
        tasks =
            record first { linux_context = sv.linux_init; fpu_state = sv.fxsave w }
            ∷ replicate (task_limit - 1) zero_task;
        current = 0;
        initial_stack_top = sv.gdt_kernel_stack_top w;
        world = sv.set_isr_fpu_temp (sv.fxsave w) w;
      }

  -- What the timer saves of the running task.
  unfoldable pub save_outgoing : Frame → W → Task → Task
  save_outgoing frame w task =
      let saved : Task = scheduler_save_fs_context w (record task {
        frame = some frame;
        cr3 = page_of (sv.read_cr3 w);
        gs_base = sv.rdmsr msr_gs_base w;
        kernel_gs_base = sv.rdmsr msr_kernel_gs_base w;
        linux_abi = sv.linux_abi_active w;
        linux_context = if sv.linux_abi_active w then sv.linux_save w else task.linux_context;
      }) in
      record saved { fpu_state = sv.isr_fpu_temp w }

  unfoldable pub scheduler_current_workspace : Sched W → ℕ
  scheduler_current_workspace s = (task_at s.tasks s.current).workspace_id

  unfoldable pub scheduler_set_shell_workspace : ℕ → Sched W → Sched W
  scheduler_set_shell_workspace id s =
      if leb 4 id
      then s
      else let (flags, w) = sv.disable_interrupts s.world in
        record s {
          tasks = set s.tasks 0 (record (task_at s.tasks 0) { workspace_id = id });
          world = scheduler_restore_interrupts flags w;
        }

  -- kernel/tui/workspaces.c: the next terminal is shown, and the shell goes to its workspace.
  unfoldable pub sys_switch_terminal : Sched W → Sched W
  sys_switch_terminal s =
      let (flags, id, w) = sv.next_terminal (scheduler_current_workspace s) s.world in
      let s1 : Sched W = scheduler_set_shell_workspace id (record s { world = w }) in
      record s1 { world = sv.show_terminal flags id s1.world }

  -- What the timer has stored when it looks for a request.
  unfoldable pub store_outgoing : Frame → Sched W → Sched W
  store_outgoing frame s =
      let outgoing : Task = save_outgoing frame s.world (task_at s.tasks s.current) in
      record s {
        tasks = set s.tasks s.current outgoing;
        world = sv.workspace_save outgoing.workspace_id s.world;
      }

  -- A switch of the workspace, where one is asked for.
  unfoldable pub serve_request : Bool → Sched W → Sched W
  serve_request switched s = if switched then sys_switch_terminal s else s

  -- The timer's work on a running task: save, honour a workspace switch, and go on with the next.
  unfoldable pub switch_task : Frame → Sched W → Option Frame × Sched W
  switch_task frame s =
      let s1 : Sched W = store_outgoing frame s in
      let (switched, w1) = sv.take_switch_request s1.world in
      let s2 : Sched W = serve_request switched (record s1 { world = w1 }) in
      let outgoing : Task = task_at s2.tasks s2.current in
      let next : ℕ = scheduler_find_next s2.tasks s2.current in
      let stay : Sched W = if switched then scheduler_activate s2.current s2 else record s2 {
        world =
            sv.workspace_load outgoing.workspace_id
              (outgoing.workspace_id == sv.current_terminal_id s2.world) s2.world;
      } in
      if next == s2.current
      then (some frame, record stay { world = sv.fxrstor outgoing.fpu_state stay.world })
      else ((task_at s2.tasks next).frame, scheduler_activate next s2)

  unfoldable pub scheduler_on_timer : Option Frame → Sched W → Option Frame × Sched W
  scheduler_on_timer none s = (none, s)
  scheduler_on_timer (some frame) s =
      if not (task_at s.tasks s.current).active then (some frame, s) else switch_task frame s

  -- Found and gone, or -1 for no such task: true is the result 0.
  unfoldable pub scheduler_kill : ℕ → Sched W → Bool × Sched W
  scheduler_kill pid s =
      if pid == 0
      then (false, s)
      else let (flags, w) = sv.disable_interrupts s.world in
        elim (find_slot (λ t. t.active && (t.pid == pid)) (rest_of s.tasks) 1) [
          | none ↦ (false, record s { world = scheduler_restore_interrupts flags w })
          | some i ↦
              let task : Task = task_at s.tasks i in
              (
                true,
                record s {
                  tasks = set s.tasks i (record task { active = false });
                  world =
                      scheduler_restore_interrupts flags
                        (sv.destroy_user_pml4 task.cr3 (sv.cleanup_program_pages task.program w));
                },
              )
        ]

  -- `capacity` is 0 where `output` is null, as nothing is written then either.
  unfoldable pub scheduler_list : ℕ → Sched W → ℕ × List TaskInfo × Sched W
  scheduler_list capacity s =
      let (flags, w) = sv.disable_interrupts s.world in
      let (count, out) = list_loop (rest_of s.tasks) 1 s.current capacity 0 [] in
      (count, out, record s { world = scheduler_restore_interrupts flags w })

  unfoldable pub scheduler_current_pid : Sched W → ℕ
  scheduler_current_pid s = (task_at s.tasks s.current).pid

  -- `none` is the call of `syscall_exit_to_launcher`; else the frame that is resumed.
  unfoldable pub scheduler_exit_current : Sched W → Option (Option Frame × Sched W)
  scheduler_exit_current s =
      if s.current == 0
      then none
      else let old : Task = task_at s.tasks s.current in
        let saved : Task = scheduler_save_fs_context s.world (record old {
          linux_context =
              if sv.linux_abi_active s.world then sv.linux_save s.world else old.linux_context;
        }) in
        let tasks : List Task = set s.tasks s.current (record saved { active = false }) in
        let w : W =
          sv.cleanup_program_pages old.program (sv.workspace_save old.workspace_id s.world) in
        let next : ℕ = scheduler_find_next tasks s.current in
        let target : Task = task_at tasks next in
        some (
          target.frame,
          record s {
            tasks = tasks;
            current = next;
            world = switch_user_pml4 target.cr3 (sv.destroy_user_pml4 old.cr3 w);
          },
        )
