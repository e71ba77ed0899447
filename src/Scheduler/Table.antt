-- ===== src/Scheduler/Table.antt =====
-- helper/core/execute/scheduler.c: the task table is well formed, and what killing does to it.
use windoge_os.Common.{
  ℕ, zero, suc, ◌+◌, ◌<◌, ◌≡◌, refl, ◌≢◌, ◌⊎◌, inl, inr, arith, Bool, true, false, ◌&&◌, none, some,
  List, [], ◌∷◌, ◌==◌, Bool-cases, Option-cases, length, get_or, length-set, get_or-set, ◌∙◌, sym,
  ap,
}
use windoge_os.Scheduler.Services.{Services}
use windoge_os.Scheduler.State.{
  Task, Sched, zero_task, task_limit, task_at, rest_of, find_slot, scheduler_kill,
}
use windoge_os.Scheduler.RoundRobin.{IsActive}

-- The table has its eight slots, the current one among them, and the shell in slot 0 is active.
pub record IsTable {W : Type 0} (s : Sched W) : Type 0 where
  pub size : length s.tasks ≡ task_limit
  pub current_in : s.current < task_limit
  pub shell : IsActive s.tasks 0

pub find_slot-some :
    (test : Task → Bool) (ts : List Task) (i : ℕ) {j : ℕ}
    → find_slot test ts i ≡ some j
    → (k : ℕ) × (j ≡ i + k) × (k < length ts) × (test (get_or ts k zero_task) ≡ true)
unfolding find_slot
find_slot-some test [] i e = cc
find_slot-some test (t ∷ ts) i {j} e = elim (Bool-cases (test t)) [
  | inl h ↦ (0, ground arith, omega arith, h)
  | inr h ↦
      let (k, at, lt, hit) = find_slot-some test ts (suc i) {j = j} (ground arith) in
      (suc k, omega arith, omega arith, hit)
]

pub find_slot-none :
    (test : Task → Bool) (ts : List Task) (i k : ℕ)
    → find_slot test ts i ≡ none
    → k < length ts
    → test (get_or ts k zero_task) ≡ false
unfolding find_slot
find_slot-none test [] i k e h = absurd (omega arith)
find_slot-none test (t ∷ ts) i zero e h = ground arith
find_slot-none test (t ∷ ts) i (suc k) e h =
    find_slot-none test ts (suc i) k (ground arith) (omega arith)

-- The loops of the source begin at index 1.
rest_of-at : (ts : List Task) (k : ℕ) → get_or (rest_of ts) k zero_task ≡ task_at ts (suc k)
rest_of-at [] k = refl
rest_of-at (t ∷ ts) k = refl

length-rest_of : (ts : List Task) → 0 < length ts → suc (length (rest_of ts)) ≡ length ts
length-rest_of [] h = absurd (omega arith)
length-rest_of (t ∷ ts) h = refl

-- A slot other than the shell's that passes a test.
pub record Slot (ts : List Task) (test : Task → Bool) (i : ℕ) : Type 0 where
  pub not_shell : 0 < i
  pub inside : i < length ts
  pub passes : test (task_at ts i) ≡ true

pub search-Slot :
    (ts : List Task) (test : Task → Bool) {i : ℕ}
    → 0 < length ts
    → find_slot test (rest_of ts) 1 ≡ some i
    → Slot ts test i
search-Slot ts test {i} h e =
    let (k, at, lt, hit) = find_slot-some test (rest_of ts) 1 e in
    record {
      not_shell = omega arith;
      inside = omega (arith, length-rest_of ts h);
      passes =
          ap (λ j. test (task_at ts j)) {y = suc k} (omega arith)
          ∙ ap test (sym (rest_of-at ts k))
          ∙ hit;
    }

pub search-none :
    (ts : List Task) (test : Task → Bool) (i : ℕ)
    → find_slot test (rest_of ts) 1 ≡ none
    → 0 < i
    → i < length ts
    → test (task_at ts i) ≡ false
search-none ts test zero e p h = absurd (omega arith)
search-none ts test (suc i) e p h =
    ap test (sym (rest_of-at ts i))
    ∙ find_slot-none test (rest_of ts) 1 i e (omega (arith, length-rest_of ts (omega arith)))

-- What `scheduler_kill` does: it stops one task that has the pid, or there is none.
pub record Killed {W : Type 0} (pid : ℕ) (s s' : Sched W) : Type 0 where
  pub slot : ℕ
  pub victim : Slot s.tasks (λ t. t.active && (t.pid == pid)) slot
  pub stopped : task_at s'.tasks slot ≡ record (task_at s.tasks slot) { active = false }
  pub others : (j : ℕ) → slot ≢ j → task_at s'.tasks j ≡ task_at s.tasks j

pub record NotKilled {W : Type 0} (pid : ℕ) (s s' : Sched W) : Type 0 where
  pub unchanged : s'.tasks ≡ s.tasks
  pub absent :
      (pid ≡ 0)
      ⊎ ((i : ℕ)
          → 0 < i
          → i < length s.tasks
          → ((task_at s.tasks i).active && ((task_at s.tasks i).pid == pid)) ≡ false)

module _ {W : Type 0} (sv : Services W) where
  -- `scheduler_kill` keeps the table well formed, the shell in slot 0 and the current slot included.
  -- It returns 0 exactly when it has stopped one active task with that pid, outside slot 0, and has
  -- left every other slot alone; else no slot has changed, and the pid is 0 or no active task has it.
  pub scheduler_kill_lem :
      (pid : ℕ) (s : Sched W)
      → IsTable s
      → let (done, s') = scheduler_kill sv pid s in
        IsTable s'
        × (s'.current ≡ s.current)
        × (((done ≡ true) × Killed pid s s') ⊎ ((done ≡ false) × NotKilled pid s s'))
  unfolding scheduler_kill
  scheduler_kill_lem pid s v = elim (Bool-cases (pid == 0)) [
    | inl z ↦
        rw (z, scheduler_kill)
          (v, refl, inr (refl, record { unchanged = refl; absent = inl (ground arith) }))
    | inr nz ↦
        elim (Option-cases (find_slot (λ t. t.active && (t.pid == pid)) (rest_of s.tasks) 1)) [
          | inl e ↦
              rw (nz, e, scheduler_kill)
                (
                  record { size = v.size; current_in = v.current_in; shell = v.shell },
                  refl,
                  inr (
                    refl,
                    record {
                      unchanged = refl;
                      absent =
                          inr (λ i p h.
                            search-none s.tasks (λ t. t.active && (t.pid == pid)) i e p h);
                    },
                  ),
                )
          | inr hit ↦ stopped hit.0 hit.1 nz
        ]
  ]
    where
      stopped :
          (i : ℕ)
          → find_slot (λ t. t.active && (t.pid == pid)) (rest_of s.tasks) 1 ≡ some i
          → (pid == 0) ≡ false
          → let (done, s') = scheduler_kill sv pid s in
            IsTable s'
            × (s'.current ≡ s.current)
            × (((done ≡ true) × Killed pid s s') ⊎ ((done ≡ false) × NotKilled pid s s'))
      stopped i e nz =
          let hit : Slot s.tasks (λ t. t.active && (t.pid == pid)) i =
            search-Slot s.tasks (λ t. t.active && (t.pid == pid)) (omega (arith, v.size)) e in
          let dead : Task = record (task_at s.tasks i) { active = false } in
          rw (nz, e, scheduler_kill)
            (
              record {
                size = length-set s.tasks i dead ∙ v.size;
                current_in = v.current_in;
                shell =
                    ap (λ t. t.active) (get_or-set s.tasks i 0 dead zero_task hit.inside)
                    ∙ ground (arith, hit.not_shell, v.shell);
              },
              refl,
              inl (
                refl,
                record {
                  slot = i;
                  victim = hit;
                  stopped = get_or-set s.tasks i i dead zero_task hit.inside ∙ ground arith;
                  others = λ j ne. get_or-set s.tasks i j dead zero_task hit.inside ∙ ground arith;
                },
              ),
            )
