-- ===== src/Tests/Kernel.antt =====
-- helper/core: the theorems at concrete states of the scheduler and concrete paths.
use windoge_os.Common.{
  ℕ, ◌*◌, ◌≤◌, ◌≡◌, refl, ◌≢◌, ◌↔◌, ◌⊎◌, arith, true, false, some, List, [], ◌∷◌, ◌++◌, replicate,
}
use windoge_os.Scheduler.Services.{Services}
use windoge_os.Scheduler.State.{
  Task, Sched, zero_task, task_at, task_limit, scheduler_kill, scheduler_on_timer,
}
use windoge_os.Scheduler.Spawn.{zero_frame}
use windoge_os.Scheduler.Table.{IsTable, Killed, NotKilled, scheduler_kill_lem}
use windoge_os.Scheduler.RoundRobin.{NextActive}
use windoge_os.Scheduler.Ticks.{after_ticks, no_starvation}
use windoge_os.Scheduler.Timer.{Unmoved, on_timer-switches}
use windoge_os.Access.{system_can_access_path, strip, system_folder}
use windoge_os.Access.Policy.{InSystem, InForeignHome}
use windoge_os.Access.Verdict.{can_access_path_iff}

-- A processor that has one register, and a file system that is always at the root.
abbrev plain : Services ℕ
plain = record {
  read_cr3 = λ w. w;
  write_cr3 = λ v w. v;
  rdmsr = λ r w. 0;
  wrmsr = λ r v w. w;
  fxrstor = λ f w. w;
  fxsave = λ w i. 0;
  isr_fpu_temp = λ w i. 0;
  set_isr_fpu_temp = λ f w. w;
  disable_interrupts = λ w. (512, w);
  sti = λ w. w;
  gdt_kernel_stack_top = λ w. 0;
  gdt_set_kernel_stack = λ v w. w;
  task_stack_top = λ i. i * 16384;
  fs_dirname = λ w. some (b'/' ∷ []);
  fs_current_drive = λ w. 0;
  fs_select_drive = λ d w. (true, w);
  fs_chdir = λ d w. (true, w);
  fs_get_info = λ p w. (some (100, false), w);
  linux_abi_active = λ w. false;
  select_linux_abi = λ b w. w;
  linux_save = λ w. record { heap_start = 0; program_break = 0; others = λ _. 0 };
  linux_restore = λ c w. w;
  linux_init = record { heap_start = 0; program_break = 0; others = λ _. 0 };
  user_kernel_gs_base = λ w. 0;
  workspace_save = λ i w. w;
  workspace_load = λ i b w. w;
  take_switch_request = λ w. (true, w);
  next_terminal = λ id w. (512, 1, w);
  show_terminal = λ flags id w. w;
  current_terminal_id = λ w. 0;
  create_user_pml4 = λ w. (8192, w);
  destroy_user_pml4 = λ p w. w;
  cleanup_program_pages = λ p w. w;
  load_elf = λ p n c a w. (
    some (record {
      entry = 4096;
      user_stack = 65536;
      user_argv = 0;
      linux_abi = false;
      heap_base = 0;
    }),
    record { regions = []; stack_base = 0; stack_pages = 0 },
    w,
  );
}

abbrev running : ℕ → Task
running p = record zero_task { pid = p; active = true }

-- The shell, and tasks with the pids 2 and 3 in the slots 1 and 2; the second runs.
abbrev three : Sched ℕ
three = record {
  tasks = running 0 ∷ running 2 ∷ running 3 ∷ replicate 5 zero_task;
  current = 2;
  next_pid = 4;
  initial_stack_top = 0;
  world = 4096;
}

three-IsTable : IsTable three
three-IsTable = record { size = refl; current_in = omega arith; shell = refl }

on_timer-switches_example :
    let (out, s') = scheduler_on_timer plain (some zero_frame) three in
    IsTable s'
    × NextActive s'.tasks 2 1 s'.current
    × ((task_at s'.tasks 2).frame ≡ some zero_frame)
    × (out ≡ (task_at s'.tasks s'.current).frame)
    × ((j : ℕ) → 2 ≢ j → Unmoved plain zero_frame three s' j)
    × ((j : ℕ) → (task_at s'.tasks j).active ≡ (task_at three.tasks j).active)
on_timer-switches_example = on_timer-switches plain zero_frame three three-IsTable refl

no_starvation_example :
    (k : ℕ) × (1 ≤ k)
    × (k ≤ task_limit)
    × ((after_ticks plain k (λ i. zero_frame) three).current ≡ 1)
no_starvation_example =
    no_starvation plain (λ i. zero_frame) three 1 three-IsTable refl (omega arith) refl

scheduler_kill_lem_example :
    let (done, s') = scheduler_kill plain 2 three in
    IsTable s'
    × (s'.current ≡ 2)
    × (((done ≡ true) × Killed 2 three s') ⊎ ((done ≡ false) × NotKilled 2 three s'))
scheduler_kill_lem_example = scheduler_kill_lem plain 2 three three-IsTable

abbrev bob : List ℕ
bob = b'b' ∷ b'o' ∷ b'b' ∷ []

-- "c:/system/x"
abbrev system_path : List ℕ
system_path = b'c' ∷ b':' ∷ b'/' ∷ (system_folder ++ (b'/' ∷ b'x' ∷ []))

can_access_path_iff_example :
    ((system_can_access_path (some bob) (some system_path) ≡ 0)
      ↔ (InSystem (strip system_path) ⊎ InForeignHome bob (strip system_path)))
    × ((system_can_access_path (some bob) (some system_path) ≡ 0)
        ⊎ (system_can_access_path (some bob) (some system_path) ≡ 1))
can_access_path_iff_example =
    can_access_path_iff bob system_path (omega arith) (omega arith) (λ e. cc)
