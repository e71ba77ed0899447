-- ===== src/Scheduler/RoundRobin.antt =====
-- helper/core/execute/scheduler.c: `scheduler_find_next` is round robin, and starves no task.
use windoge_os.Common.{
  ℕ, zero, suc, ◌+◌, ◌-◌, ◌%◌, ◌≤◌, ◌<◌, ◌≡◌, refl, ◌≢◌, inl, inr, arith, true, false, List,
  Bool-cases, ◌∙◌, sym, ap,
}
use native.Mathlib.Decide.{ℕ_discrete}
use windoge_os.Scheduler.State.{Task, task_at, task_limit, find_loop, scheduler_find_next}

abbrev pub IsActive : List Task → ℕ → Type 0
IsActive ts i = (task_at ts i).active ≡ true

-- Between the start and the slot that the search returns no task is active.
pub record NextActive (ts : List Task) (after from result : ℕ) : Type 0 where
  pub step : ℕ
  pub begins : from ≤ step
  pub place : result ≡ (after + step) % task_limit
  pub found : IsActive ts result
  pub skipped :
      (k : ℕ) → from ≤ k → k < step → (task_at ts ((after + k) % task_limit)).active ≡ false

-- With an active slot ahead, the loop stops at the first active one.
find_loop-NextActive :
    (n step : ℕ) (ts : List Task) (after k : ℕ)
    → step ≤ k
    → k < step + n
    → IsActive ts ((after + k) % task_limit)
    → (r : NextActive ts after step (find_loop n step ts after)) × (r.step ≤ k)
unfolding find_loop
find_loop-NextActive zero step ts after k lo hi h = absurd (omega arith)
find_loop-NextActive (suc n) step ts after k lo hi h =
    elim (Bool-cases (task_at ts ((after + step) % task_limit)).active) [
      | inl e ↦
          rw (e, find_loop)
            (
              record {
                step = step;
                begins = omega arith;
                place = refl;
                found = e;
                skipped = λ j a b. absurd (omega arith);
              },
              lo,
            )
      | inr e ↦
          let ne : step ≢ k =
            λ q. cc (e, h, ap (λ j. (task_at ts ((after + j) % task_limit)).active) q) in
          let (r, le) =
            find_loop-NextActive n (suc step) ts after k (omega arith) (omega arith) h in
          rw (e, find_loop)
            (
              record {
                step = r.step;
                begins = omega (arith, r.begins);
                place = r.place;
                found = r.found;
                skipped = λ j a b. elim (ℕ_discrete step j) [
                  | yes q ↦ ap (λ i. (task_at ts ((after + i) % task_limit)).active) (sym q) ∙ e
                  | no q ↦ r.skipped j (omega arith) b
                ];
              },
              le,
            )
    ]

-- How many steps ahead of `c` the slot `j` lies: 1 to 8, a whole round for `c` itself.
abbrev pub ahead : ℕ → ℕ → ℕ
ahead c j = (j + task_limit - c - 1) % task_limit + 1

-- Where some task is active, `scheduler_find_next` returns an active slot of the table, at most as
-- far ahead as that task, and every slot that it passes over is inactive.
pub find_next-NextActive :
    (ts : List Task) (c j : ℕ)
    → c < task_limit
    → j < task_limit
    → IsActive ts j
    → (r : NextActive ts c 1 (scheduler_find_next ts c)) × (r.step ≤ ahead c j)
unfolding scheduler_find_next
find_next-NextActive ts c j hc hj h =
    find_loop-NextActive task_limit 1 ts c (ahead c j) (omega arith) (omega arith)
      (ap (λ i. (task_at ts i).active) {x = (c + ahead c j) % task_limit} {y = j} (omega arith) ∙ h)
