-- ===== src/ThreadPool/Progress.antt =====
-- The condition variable of src/core/io_thread_pool.cpp: workers that sleep in its wait until they are
-- notified, and the end of a pool whose destructor runs. A wait does not return without a notification.
use dann.Prelude.{
  ℕ, zero, suc, ◌+◌, ◌-◌, ◌*◌, ◌≤◌, ◌<◌, ◌≡◌, refl, ◌⊎◌, inl, inr, Bool, true, false, List, [], ◌∷◌,
  some, get_elem?, set, length, ◌==◌, if◌then◌else◌, arith, Bool-cases,
}
use dann.ThreadPool.{
  Worker, waiting, running, finished, Pool, create_pool, pushed, taken, completed, left, stopped,
}
use dann.ThreadPool.Runs.{all_finished}

-- `notices` is the number of calls of enqueue that have yet to call notify_one, and `notifying_all` says
-- that the destructor has yet to call notify_all.
pub record Waking : Type 0 where
  pub pool : Pool
  pub asleep : ℕ → Bool
  pub notices : ℕ
  pub notifying_all : Bool

abbrev pub new_pool : ℕ → ℕ → Waking
new_pool threads concurrency = record {
  pool = create_pool threads concurrency;
  asleep = λ i. false;
  notices = 0;
  notifying_all = false;
}

abbrev pub with_pool : Waking → Pool → Waking
with_pool s p = record s { pool = p }

abbrev pub woken : ℕ → Waking → Waking
woken i s = record s { asleep = λ j. if j == i then false else s.asleep j; notices = s.notices - 1 }

abbrev pub slept : ℕ → Waking → Waking
slept i s = record s { asleep = λ j. if j == i then true else s.asleep j }

-- A step with the calls of the condition variable. A worker that is awake looks at the queue, and sleeps
-- if the pool has not been stopped and the queue is empty.
pub data WakingStep : Waking → Waking → Type 0 where
  enqueues :
      (s : Waking) (t : ℕ)
      → s.pool.stop ≡ false
      → WakingStep s (record s { pool = pushed t s.pool; notices = s.notices + 1 })
  notifies_one : (s : Waking) (i : ℕ) → 0 < s.notices → s.asleep i ≡ true → WakingStep s (woken i s)
  notifies_none :
      (s : Waking)
      → 0 < s.notices
      → ((i : ℕ) → s.asleep i ≡ false)
      → WakingStep s (record s { notices = s.notices - 1 })
  sleeps :
      (s : Waking) (i : ℕ)
      → get_elem? s.pool.workers i ≡ some waiting
      → s.asleep i ≡ false
      → s.pool.stop ≡ false
      → s.pool.tasks ≡ []
      → WakingStep s (slept i s)
  takes :
      (s : Waking) (i t : ℕ) (rest : List ℕ)
      → get_elem? s.pool.workers i ≡ some waiting
      → s.asleep i ≡ false
      → s.pool.tasks ≡ t ∷ rest
      → WakingStep s (with_pool s (taken i t rest s.pool))
  completes :
      (s : Waking) (i t : ℕ)
      → get_elem? s.pool.workers i ≡ some (running t)
      → WakingStep s (with_pool s (completed i t s.pool))
  leaves :
      (s : Waking) (i : ℕ)
      → get_elem? s.pool.workers i ≡ some waiting
      → s.asleep i ≡ false
      → s.pool.stop ≡ true
      → s.pool.tasks ≡ []
      → WakingStep s (with_pool s (left i s.pool))
  stops :
      (s : Waking)
      → s.pool.stop ≡ false
      → WakingStep s (record s { pool = stopped s.pool; notifying_all = true })
  notifies_all :
      (s : Waking)
      → s.notifying_all ≡ true
      → WakingStep s (record s { asleep = λ i. false; notifying_all = false })

-- n steps, in any order of the threads.
pub data Run (s : Waking) : ℕ → Waking → Type 0 where
  here : Run s 0 s
  next : {n : ℕ} {t u : Waking} → Run s n t → WakingStep t u → Run s (suc n) u

-- The steps that a worker has before it.
abbrev weight : Worker → ℕ
weight waiting = 1
weight (running t) = 2
weight finished = 0

abbrev weights : List Worker → ℕ
weights [] = 0
weights (w ∷ ws) = weight w + weights ws

-- Each task in the queue is taken and ended.
abbrev pub work_left : Pool → ℕ
work_left p = 2 * length p.tasks + weights p.workers

weights-set :
    (ws : List Worker) (i : ℕ) (v w : Worker)
    → get_elem? ws i ≡ some v
    → weights (set ws i w) + weight v ≡ weights ws + weight w
weights-set [] i v w e = absurd (ground arith)
weights-set (u ∷ ws) zero v w e = let same : u ≡ v = ground arith in rw same (omega arith)
weights-set (u ∷ ws) (suc i) v w e = omega (arith, weights-set ws i v w e)

busy_worker :
    (ws : List Worker)
    → all_finished ws ≡ false
    → (i : ℕ) × ((get_elem? ws i ≡ some waiting) ⊎ ((t : ℕ) × (get_elem? ws i ≡ some (running t))))
busy_worker [] e = absurd (ground arith)
busy_worker (waiting ∷ ws) e = (0, inl refl)
busy_worker (running t ∷ ws) e = (0, inr (t, refl))
busy_worker (finished ∷ ws) e = let (i, found) = busy_worker ws e in (suc i, found)

List-cases : (l : List ℕ) → (l ≡ []) ⊎ ((t : ℕ) × (rest : List ℕ) × (l ≡ t ∷ rest))
List-cases [] = inl refl
List-cases (t ∷ rest) = inr (t, rest, refl)

-- The steps that are left to a pool that has been stopped, at most.
abbrev pub steps_left : Waking → ℕ
steps_left s = work_left s.pool + s.notices + (if s.notifying_all then 1 else 0)

-- After the stop and the call of notify_all nobody sleeps.
abbrev IsAwake : Waking → Type 0
IsAwake s = s.pool.stop ≡ true → s.notifying_all ≡ false → (i : ℕ) → s.asleep i ≡ false

WakingStep-IsAwake : {s t : Waking} → WakingStep s t → IsAwake s → IsAwake t
WakingStep-IsAwake (enqueues s t on) h stop none = h stop none
WakingStep-IsAwake (notifies_one s i some_notice sleeper) h stop none =
    λ j. elim (Bool-cases (j == i)) [ inl y ↦ rw y refl | inr n ↦ rw n (h stop none j) ]
WakingStep-IsAwake (notifies_none s some_notice awake) h stop none = h stop none
WakingStep-IsAwake (sleeps s i free awake on empty) h stop none = absurd (ground (arith, on, stop))
WakingStep-IsAwake (takes s i t rest free awake front) h stop none = h stop none
WakingStep-IsAwake (completes s i t busy) h stop none = h stop none
WakingStep-IsAwake (leaves s i free awake on_stop empty) h stop none = h stop none
WakingStep-IsAwake (stops s on) h stop none = absurd (ground (arith, none))
WakingStep-IsAwake (notifies_all s notifying) h stop none = λ i. refl

-- In a stopped pool each step leaves fewer.
WakingStep-less :
    {s t : Waking}
    → WakingStep s t
    → s.pool.stop ≡ true
    → (t.pool.stop ≡ true) × (steps_left t < steps_left s)
WakingStep-less (enqueues s t on) stop = absurd (ground (arith, on, stop))
WakingStep-less (notifies_one s i some_notice sleeper) stop = (stop, omega (arith, some_notice))
WakingStep-less (notifies_none s some_notice awake) stop = (stop, omega (arith, some_notice))
WakingStep-less (sleeps s i free awake on empty) stop = absurd (ground (arith, on, stop))
WakingStep-less (takes s i t rest free awake front) stop =
    (stop, rw front (omega (arith, weights-set s.pool.workers i waiting (running t) free)))
WakingStep-less (completes s i t busy) stop =
    (stop, omega (arith, weights-set s.pool.workers i (running t) waiting busy))
WakingStep-less (leaves s i free awake on_stop empty) stop =
    (stop, omega (arith, weights-set s.pool.workers i waiting finished free))
WakingStep-less (stops s on) stop = absurd (ground (arith, on, stop))
WakingStep-less (notifies_all s notifying) stop = (stop, rw notifying (omega arith))

-- As long as a worker of a stopped pool has not returned, there is a step.
can_step :
    (s : Waking)
    → s.pool.stop ≡ true
    → IsAwake s
    → (all_finished s.pool.workers ≡ true) ⊎ ((t : Waking) × WakingStep s t)
can_step s stop awake = elim (Bool-cases (all_finished s.pool.workers)) [
  | inl e ↦ inl e
  | inr e ↦ elim (Bool-cases s.notifying_all) [
    | inl y ↦ inr (_, notifies_all s y)
    | inr n ↦
        let (i, found) = busy_worker s.pool.workers e in
        elim found [
          | inr (t, busy) ↦ inr (_, completes s i t busy)
          | inl free ↦ elim (List-cases s.pool.tasks) [
            | inl empty ↦ inr (_, leaves s i free (awake stop n i) stop empty)
            | inr (t, rest, front) ↦ inr (_, takes s i t rest free (awake stop n i) front)
          ]
        ]
  ]
]

Run-IsAwake : {s t : Waking} {n : ℕ} → Run s n t → IsAwake s → IsAwake t
Run-IsAwake here h = h
Run-IsAwake (next run step) h = WakingStep-IsAwake step (Run-IsAwake run h)

Run-less :
    {s t : Waking} {n : ℕ}
    → Run s n t
    → s.pool.stop ≡ true
    → (t.pool.stop ≡ true) × (n + steps_left t ≤ steps_left s)
Run-less here stop = (stop, omega arith)
Run-less (next run step) stop =
    let (still, most) = Run-less run stop in
    let (on_stop, less) = WakingStep-less step still in (on_stop, omega (arith, most, less))

-- A pool whose destructor has set stop comes to its end in every order of the steps: from each state
-- that a new pool reaches, once it is stopped, every run of n steps is at most as long as steps_left says,
-- and where it is after them either all workers have returned or a step can be made, also if workers
-- were asleep when the pool was stopped.
pub stopped-all_finished :
    (threads concurrency m n : ℕ) (s t : Waking)
    → Run (new_pool threads concurrency) m s
    → s.pool.stop ≡ true
    → Run s n t
    → (n ≤ steps_left s) × ((all_finished t.pool.workers ≡ true) ⊎ ((u : Waking) × WakingStep t u))
stopped-all_finished threads concurrency m n s t before stop run =
    let (still, most) = Run-less run stop in
    (omega (arith, most), can_step t still (Run-IsAwake run (Run-IsAwake before (λ e f i. refl))))
