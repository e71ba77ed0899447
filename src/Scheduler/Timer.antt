-- ===== src/Scheduler/Timer.antt =====
-- helper/core/execute/scheduler.c: what a timer tick does.
use windoge_os.Common.{
  ℕ, ◌≡◌, refl, ◌≢◌, ◌⊎◌, inl, inr, arith, true, false, some, ◌==◌, if◌then◌else◌, Bool-cases,
  length, length-set, ◌∙◌, sym, ap,
}
use mathlib.Core.Path.{subst}
use native.Mathlib.Decide.{ℕ_discrete}
use windoge_os.Scheduler.Services.{Services}
use windoge_os.Scheduler.State.{
  Frame, Task, Sched, task_at, scheduler_find_next, scheduler_on_timer, serve_request, switch_task,
}
use windoge_os.Scheduler.RoundRobin.{IsActive, NextActive, find_next-NextActive}
use windoge_os.Scheduler.Table.{IsTable}
use windoge_os.Scheduler.Served.{
  stored, served, switch_asked, served-current, served-Moved, switch_cases, save_outgoing-frame,
  stored_self, stored_other, stored-active,
}

module _ {W : Type 0} (sv : Services W) where
  -- Any record is the stored one, but for the workspace.
  served-at :
      (f : Frame) (s : Sched W) (j : ℕ)
      → IsTable s
      → (id : ℕ) × (task_at (served sv f s).tasks j
          ≡ record (task_at (stored sv f s) j) { workspace_id = id })
  served-at f s j v = elim (ℕ_discrete 0 j) [
    | yes e ↦
        subst
          (λ i.
            (id : ℕ) × (task_at (served sv f s).tasks i
              ≡ record (task_at (stored sv f s) i) { workspace_id = id }))
          e ((served-Moved sv f s v).id, (served-Moved sv f s v).shell)
    | no ne ↦ ((task_at (stored sv f s) j).workspace_id, (served-Moved sv f s v).others j ne)
  ]

  served-active :
      (f : Frame) (s : Sched W) (j : ℕ)
      → IsTable s
      → (task_at (served sv f s).tasks j).active ≡ (task_at s.tasks j).active
  served-active f s j v = ap (λ t. t.active) (served-at f s j v).1 ∙ stored-active sv f s j v

  served-frame :
      (f : Frame) (s : Sched W)
      → IsTable s
      → (task_at (served sv f s).tasks s.current).frame ≡ some f
  served-frame f s v =
      ap (λ t. t.frame) (served-at f s s.current v).1
      ∙ ap (λ t. t.frame) (stored_self sv f s v)
      ∙ save_outgoing-frame sv f s.world (task_at s.tasks s.current)

  -- The record of a slot is as it was, or it is the shell's, a switch of the terminal was asked for, and
  -- only the workspace differs.
  abbrev pub Unmoved : Frame → Sched W → Sched W → ℕ → Type 0
  Unmoved f s s' j =
      (task_at s'.tasks j ≡ task_at s.tasks j)
      ⊎ ((j ≡ 0)
          × (switch_asked sv f s ≡ true)
          × ((id : ℕ) × (task_at s'.tasks j ≡ record (task_at s.tasks j) { workspace_id = id })))

  served-Unmoved :
      (f : Frame) (s : Sched W) (j : ℕ) → IsTable s → s.current ≢ j → Unmoved f s (served sv f s) j
  unfolding serve_request
  served-Unmoved f s j v ne = elim (ℕ_discrete 0 j) [
    | no other ↦ inl ((served-Moved sv f s v).others j other ∙ stored_other sv f s j v ne)
    | yes e ↦ elim (Bool-cases (switch_asked sv f s)) [
      | inl g ↦
          let (id, same) = served-at f s j v in
          inr (
            sym e,
            g,
            (
              id,
              same
                  ∙ ap {A = Task} {B = Task} (λ t. record t { workspace_id = id })
                      (stored_other sv f s j v ne),
            ),
          )
      | inr g ↦ inl (unasked g ∙ stored_other sv f s j v ne)
    ]
  ]
    where
      unasked :
          switch_asked sv f s ≡ false → task_at (served sv f s).tasks j ≡ task_at (stored sv f s) j
      unasked g = rw g refl

  -- A tick while a task runs: the table stays well formed; the processor goes to the next active
  -- slot round the table; the interrupted task's record has its frame; every other record is as it
  -- was, but for the workspace of the shell, slot 0, where a switch of the terminal was asked for; the
  -- same slots are active; and the frame that is resumed is the one recorded for the task that runs now.
  pub on_timer-switches :
      (f : Frame) (s : Sched W)
      → IsTable s
      → IsActive s.tasks s.current
      → let (out, s') = scheduler_on_timer sv (some f) s in
        IsTable s'
        × NextActive s'.tasks s.current 1 s'.current
        × ((task_at s'.tasks s.current).frame ≡ some f)
        × (out ≡ (task_at s'.tasks s'.current).frame)
        × ((j : ℕ) → s.current ≢ j → Unmoved f s s' j)
        × ((j : ℕ) → (task_at s'.tasks j).active ≡ (task_at s.tasks j).active)
  unfolding scheduler_on_timer
  on_timer-switches f s v active =
      rw (active, scheduler_on_timer, tasks_are, current_is, frame_is)
        (
          record {
            size =
                ap length tasks_are
                ∙ (served-Moved sv f s v).size
                ∙ length-set s.tasks s.current _
                ∙ v.size;
            current_in = rw current_is (omega (arith, chosen.place));
            shell = rw tasks_are (served-active f s 0 v ∙ v.shell);
          },
          chosen,
          served-frame f s v,
          out,
          unmoved,
          λ j. served-active f s j v,
        )
    where
      tasks_are : (switch_task sv f s).1.tasks ≡ (served sv f s).tasks
      tasks_are = (switch_cases sv f s).0

      current_is :
          (switch_task sv f s).1.current ≡ scheduler_find_next (served sv f s).tasks s.current
      current_is =
          (switch_cases sv f s).1
          ∙ ap (λ c. scheduler_find_next (served sv f s).tasks c) (served-current sv f s)

      frame_is : (switch_task sv f s).0 ≡ (
          if scheduler_find_next (served sv f s).tasks s.current == s.current
          then some f
          else (task_at
              (served sv f s).tasks
              (scheduler_find_next (served sv f s).tasks s.current)).frame)
      frame_is =
          (switch_cases sv f s).2
          ∙ ap
              (λ c.
                if scheduler_find_next (served sv f s).tasks c == c
                then some f
                else (task_at (served sv f s).tasks
                    (scheduler_find_next (served sv f s).tasks c)).frame)
              (served-current sv f s)

      unmoved :
          (j : ℕ)
          → s.current ≢ j
          → (task_at (served sv f s).tasks j ≡ task_at s.tasks j)
            ⊎ ((j ≡ 0)
                × (switch_asked sv f s ≡ true)
                × ((id : ℕ) × (task_at (served sv f s).tasks j
                      ≡ record (task_at s.tasks j) { workspace_id = id })))
      unmoved j ne = served-Unmoved f s j v ne

      chosen :
          NextActive
            (served sv f s).tasks
            s.current
            1
            (scheduler_find_next (served sv f s).tasks s.current)
      chosen =
          (find_next-NextActive (served sv f s).tasks s.current s.current v.current_in v.current_in
            (served-active f s s.current v ∙ active)).0

      out :
          (if scheduler_find_next (served sv f s).tasks s.current == s.current
            then some f
            else (task_at
                (served sv f s).tasks
                (scheduler_find_next (served sv f s).tasks s.current)).frame)
          ≡ (task_at
              (served sv f s).tasks
              (scheduler_find_next (served sv f s).tasks s.current)).frame
      out = elim (Bool-cases (scheduler_find_next (served sv f s).tasks s.current == s.current)) [
        | inl e ↦ rw e (
            sym (served-frame f s v)
            ∙ ap (λ i. (task_at (served sv f s).tasks i).frame) {x = s.current} (ground (arith, e)))
        | inr e ↦ rw e
      ]
