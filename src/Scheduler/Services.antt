-- ===== src/Scheduler/Services.antt =====
-- What helper/core/execute/scheduler.c calls: processor registers, the file system's current
-- directory, workspaces, address spaces and the ELF loader, over a state `W` of theirs.
use windoge_os.Common.{ℕ, Bool, Option, List}
use windoge_os.Common.Int.{ℤ}

-- `program_memory_t`: the regions, and the stack's base and pages.
pub record Program : Type 0 where
  pub regions : List (ℕ × ℕ)
  pub stack_base : ℕ
  pub stack_pages : ℕ

-- What `system_load_elf_args` hands back through its pointers on success, but for the program's
-- regions, which it records as it goes, also where it fails.
pub record Loaded : Type 0 where
  pub entry : ℕ
  pub user_stack : ℕ
  pub user_argv : ℕ
  pub linux_abi : Bool
  pub heap_base : ℕ

-- `linux_task_context_t`: the part that the scheduler sets, and the rest.
pub record LinuxContext : Type 0 where
  pub heap_start : ℕ
  pub program_break : ℕ
  pub others : ℕ → ℕ

-- `next_terminal` and `show_terminal` are what `sys_switch_terminal` does before and behind its call
-- of `scheduler_set_shell_workspace`; the first is given the workspace that runs, and
-- hands on the saved flags and the new terminal's id.
pub record Services (W : Type 0) : Type 0 where
  pub read_cr3 : W → ℕ
  pub write_cr3 : ℕ → W → W
  pub rdmsr : ℕ → W → ℕ
  pub wrmsr : ℕ → ℕ → W → W
  pub fxrstor : (ℕ → ℕ) → W → W
  pub fxsave : W → ℕ → ℕ
  pub isr_fpu_temp : W → ℕ → ℕ
  pub set_isr_fpu_temp : (ℕ → ℕ) → W → W
  pub disable_interrupts : W → ℕ × W
  pub sti : W → W
  pub gdt_kernel_stack_top : W → ℕ
  pub gdt_set_kernel_stack : ℕ → W → W
  pub task_stack_top : ℕ → ℕ
  pub fs_dirname : W → Option (List ℕ)
  pub fs_current_drive : W → ℕ
  pub fs_select_drive : ℕ → W → Bool × W
  pub fs_chdir : List ℕ → W → Bool × W
  pub fs_get_info : List ℕ → W → Option (ℕ × Bool) × W
  pub linux_abi_active : W → Bool
  pub select_linux_abi : Bool → W → W
  pub linux_save : W → LinuxContext
  pub linux_restore : LinuxContext → W → W
  pub linux_init : LinuxContext
  pub user_kernel_gs_base : W → ℕ
  pub workspace_save : ℕ → W → W
  pub workspace_load : ℕ → Bool → W → W
  pub take_switch_request : W → Bool × W
  pub next_terminal : ℕ → W → ℕ × ℕ × W
  pub show_terminal : ℕ → ℕ → W → W
  pub current_terminal_id : W → ℕ
  pub create_user_pml4 : W → ℕ × W
  pub destroy_user_pml4 : ℕ → W → W
  pub cleanup_program_pages : Program → W → W
  pub load_elf : List ℕ → ℕ → ℤ → Option (List (List ℕ)) → W → Option Loaded × Program × W
