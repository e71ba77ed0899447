-- ===== src/Scheduler/Served.antt =====
-- helper/core/execute/scheduler.c: what a timer tick has done to the table when it looks for the next task.
use windoge_os.Common.{
  ℕ, leb, ◌<◌, ◌≡◌, refl, ◌≢◌, inl, inr, arith, Bool, some, List, ◌==◌, if◌then◌else◌, Bool-cases,
  length, set, length-set, get_or-set, ◌∙◌, ap,
}
use mathlib.Core.Path.{subst}
use native.Mathlib.Decide.{ℕ_discrete}
use windoge_os.Scheduler.Services.{Services}
use windoge_os.Scheduler.State.{
  Frame, Task, Sched, zero_task, task_at, scheduler_find_next, sys_switch_terminal, serve_request,
  store_outgoing, scheduler_set_shell_workspace, scheduler_current_workspace, switch_task,
  scheduler_activate, save_outgoing, scheduler_save_fs_context,
}
use windoge_os.Scheduler.Table.{IsTable}

module _ {W : Type 0} (sv : Services W) where
  save_fs-active : (w : W) (t : Task) → (scheduler_save_fs_context sv w t).active ≡ t.active
  unfolding scheduler_save_fs_context
  save_fs-active w t = ground arith

  save_outgoing-active : (f : Frame) (w : W) (t : Task) → (save_outgoing sv f w t).active ≡ t.active
  unfolding save_outgoing
  save_outgoing-active f w t = save_fs-active w _

  -- The table with the record of the task that stops.
  abbrev pub stored : Frame → Sched W → List Task
  stored f s = set s.tasks s.current (save_outgoing sv f s.world (task_at s.tasks s.current))

  -- The state in which the timer looks for a request, and the answer.
  abbrev saved : Frame → Sched W → Sched W
  saved f s = record s {
    tasks = stored f s;
    world =
        sv.workspace_save (save_outgoing sv f s.world (task_at s.tasks s.current)).workspace_id
          s.world;
  }

  abbrev pub switch_asked : Frame → Sched W → Bool
  switch_asked f s = (sv.take_switch_request (saved f s).world).0

  -- The state behind the request.
  abbrev pub served : Frame → Sched W → Sched W
  served f s =
      serve_request sv (switch_asked f s)
        (record (saved f s) { world = (sv.take_switch_request (saved f s).world).1 })

  switch-current : (s : Sched W) → (sys_switch_terminal sv s).current ≡ s.current
  unfolding sys_switch_terminal scheduler_set_shell_workspace
  switch-current s = ground arith

  pub served-current : (f : Frame) (s : Sched W) → (served f s).current ≡ s.current
  unfolding serve_request
  served-current f s = elim (Bool-cases (switch_asked f s)) [
    | inl g ↦ rw g (switch-current _)
    | inr g ↦ rw g refl
  ]

  -- A switch of the terminal changes the shell's workspace, and no other part of the table.
  pub record Moved (ts ts' : List Task) : Type 0 where
    pub size : length ts' ≡ length ts
    pub others : (j : ℕ) → 0 ≢ j → task_at ts' j ≡ task_at ts j
    pub id : ℕ
    pub shell : task_at ts' 0 ≡ record (task_at ts 0) { workspace_id = id }

  same-Moved : (ts : List Task) → Moved ts ts
  same-Moved ts = record {
    size = refl;
    others = λ j ne. refl;
    id = (task_at ts 0).workspace_id;
    shell = refl;
  }

  switch-Moved : (s : Sched W) → 0 < length s.tasks → Moved s.tasks (sys_switch_terminal sv s).tasks
  unfolding sys_switch_terminal scheduler_set_shell_workspace
  switch-Moved s some_task =
      elim (Bool-cases (leb 4 (sv.next_terminal (scheduler_current_workspace sv s) s.world).1)) [
        | inl big ↦ rw big (same-Moved s.tasks)
        | inr fits ↦ rw fits (record {
          size = length-set s.tasks 0 _;
          others = λ j ne. get_or-set s.tasks 0 j _ zero_task some_task ∙ ground arith;
          id = (sv.next_terminal (scheduler_current_workspace sv s) s.world).1;
          shell = get_or-set s.tasks 0 0 _ zero_task some_task ∙ refl;
        })
      ]

  pub served-Moved : (f : Frame) (s : Sched W) → IsTable s → Moved (stored f s) (served f s).tasks
  unfolding serve_request
  served-Moved f s v = elim (Bool-cases (switch_asked f s)) [
    | inl g ↦ rw g (switch-Moved _ (omega (arith, length-set s.tasks s.current _, v.size)))
    | inr g ↦ rw g (same-Moved (stored f s))
  ]

  -- The three ways through the switch leave the same table and the same current slot.
  pub switch_cases :
      (f : Frame) (s : Sched W)
      → ((switch_task sv f s).1.tasks ≡ (served f s).tasks)
        × ((switch_task sv f s).1.current
            ≡ scheduler_find_next (served f s).tasks (served f s).current)
        × ((switch_task sv f s).0 ≡ (
            if scheduler_find_next (served f s).tasks (served f s).current == (served f s).current
            then some f
            else (task_at
                (served f s).tasks
                (scheduler_find_next (served f s).tasks (served f s).current)).frame))
  unfolding switch_task scheduler_activate store_outgoing
  switch_cases f s =
      elim (Bool-cases
        (scheduler_find_next (served f s).tasks (served f s).current == (served f s).current)) [
          | inl e ↦ elim (Bool-cases (switch_asked f s)) [
            | inl g ↦ rw (e, g, switch_task) (refl, ground (arith, e), refl)
            | inr g ↦ rw (e, g, switch_task) (refl, ground (arith, e), refl)
          ]
          | inr e ↦ rw (e, switch_task) (refl, refl, refl)
        ]

  save_fs-frame : (w : W) (t : Task) → (scheduler_save_fs_context sv w t).frame ≡ t.frame
  unfolding scheduler_save_fs_context
  save_fs-frame w t = ground arith

  pub save_outgoing-frame : (f : Frame) (w : W) (t : Task) → (save_outgoing sv f w t).frame ≡ some f
  unfolding save_outgoing
  save_outgoing-frame f w t = save_fs-frame w _

  stored-at :
      (f : Frame) (s : Sched W) (j : ℕ)
      → IsTable s
      → task_at (stored f s) j ≡ (
          if s.current == j
          then save_outgoing sv f s.world (task_at s.tasks s.current)
          else task_at s.tasks j)
  stored-at f s j v =
      get_or-set s.tasks s.current j _ zero_task (omega (arith, v.size, v.current_in))

  pub stored_self :
      (f : Frame) (s : Sched W)
      → IsTable s
      → task_at (stored f s) s.current ≡ save_outgoing sv f s.world (task_at s.tasks s.current)
  stored_self f s v = stored-at f s s.current v ∙ ground arith

  pub stored_other :
      (f : Frame) (s : Sched W) (j : ℕ)
      → IsTable s
      → s.current ≢ j
      → task_at (stored f s) j ≡ task_at s.tasks j
  stored_other f s j v ne = stored-at f s j v ∙ ground arith

  pub stored-active :
      (f : Frame) (s : Sched W) (j : ℕ)
      → IsTable s
      → (task_at (stored f s) j).active ≡ (task_at s.tasks j).active
  stored-active f s j v = elim (ℕ_discrete s.current j) [
    | yes e ↦
        subst (λ i. (task_at (stored f s) i).active ≡ (task_at s.tasks i).active) e
          (ap (λ t. t.active) (stored_self f s v)
            ∙ save_outgoing-active f s.world (task_at s.tasks s.current))
    | no ne ↦ ap (λ t. t.active) (stored_other f s j v ne)
  ]
