-- ===== src/Scheduler/Ticks.antt =====
-- helper/core/execute/scheduler.c: the ticks of the timer that follow on one another.
use windoge_os.Common.{ℕ, zero, suc, ◌+◌, ◌%◌, ◌≤◌, ◌<◌, ◌≡◌, arith, false, some, ◌∙◌, ap}
use native.Mathlib.Decide.{ℕ_discrete, dec_lt}
use windoge_os.Scheduler.Services.{Services}
use windoge_os.Scheduler.State.{Frame, Sched, task_at, task_limit, scheduler_on_timer}
use windoge_os.Scheduler.RoundRobin.{IsActive, NextActive, ahead}
use windoge_os.Scheduler.Table.{IsTable}
use windoge_os.Scheduler.Timer.{on_timer-switches}

module _ {W : Type 0} (sv : Services W) where
  -- The state behind so many ticks, each with a frame of its own.
  unfoldable pub after_ticks : ℕ → (ℕ → Frame) → Sched W → Sched W
  after_ticks zero frames s = s
  after_ticks (suc k) frames s =
      after_ticks k (λ i. frames (suc i)) (scheduler_on_timer sv (some (frames 0)) s).1

  -- The search does not go past an active slot.
  not_past :
      (s : Sched W) (c j r : ℕ) (n : NextActive s.tasks c 1 r)
      → c < task_limit
      → j < task_limit
      → IsActive s.tasks j
      → n.step ≤ ahead c j
  not_past s c j r n hc hj h = elim (dec_lt (ahead c j) n.step) [
    | no le ↦ omega arith
    | yes gt ↦
        let idle : (task_at s.tasks ((c + ahead c j) % task_limit)).active ≡ false =
          n.skipped (ahead c j) (omega arith) gt in
        let here : (task_at s.tasks ((c + ahead c j) % task_limit)).active
            ≡ (task_at s.tasks j).active =
          ap (λ i. (task_at s.tasks i).active) {x = (c + ahead c j) % task_limit} {y = j}
            (omega arith) in
        absurd (cc)
  ]

  reaches :
      (d : ℕ) (frames : ℕ → Frame) (s : Sched W) (j : ℕ)
      → IsTable s
      → IsActive s.tasks s.current
      → j < task_limit
      → IsActive s.tasks j
      → ahead s.current j ≤ d
      → (k : ℕ) × (1 ≤ k) × (k ≤ d) × ((after_ticks k frames s).current ≡ j)
  unfolding after_ticks
  reaches zero frames s j v runs hj h le = absurd (omega arith)
  reaches (suc d) frames s j v runs hj h le =
      let s' : Sched W = (scheduler_on_timer sv (some (frames 0)) s).1 in
      let (v', n, own, out, others, same) = on_timer-switches sv (frames 0) s v runs in
      let near : n.step ≤ ahead s.current j =
        not_past s' s.current j s'.current n v.current_in hj (same j ∙ h) in
      elim (ℕ_discrete n.step (ahead s.current j)) [
        | yes e ↦ (1, omega arith, omega arith, omega (arith, n.place, v.current_in))
        | no ne ↦
            let (k, lo, hi, at) =
              reaches d (λ i. frames (suc i)) s' j v' n.found hj (same j ∙ h)
                (omega (arith, n.place, n.begins, v.current_in)) in
            (suc k, omega arith, omega arith, at)
      ]

  -- No task starves: while an active task runs and nothing but the timer changes the table, every
  -- active task is the current one after one to eight ticks of `scheduler_on_timer`, whatever the frames
  -- are and whether or not switches of the terminal are asked for.
  pub no_starvation :
      (frames : ℕ → Frame) (s : Sched W) (j : ℕ)
      → IsTable s
      → IsActive s.tasks s.current
      → j < task_limit
      → IsActive s.tasks j
      → (k : ℕ) × (1 ≤ k) × (k ≤ task_limit) × ((after_ticks k frames s).current ≡ j)
  no_starvation frames s j v runs hj h =
      reaches task_limit frames s j v runs hj h (omega (arith, v.current_in))
