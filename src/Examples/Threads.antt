-- ===== src/Examples/Threads.antt =====
-- A pool of one worker that runs one task and is then destroyed.
use dann.Prelude.{◌≤◌, ◌⊎◌, false, true, ◌+◌, ◌%◌, ◌≡◌, refl, [], ◌++◌, length, Perm, size_mod}
use dann.ThreadPool.{
  Pool, create_pool, thread_count, pushed, taken, completed, left, stopped, pending_tasks, enqueues,
  takes, completes, leaves, stops, Reach, here, next,
}
use dann.ThreadPool.Progress.{
  Waking, WakingStep, new_pool, slept, sleeps, stops as stops_all, notifies_all, here as at_once,
  next as after_step, stopped-all_finished,
}
use dann.ThreadPool.Runs.{all_finished, Reach-fifo, Reach-all_done, Reach-pending_tasks}

abbrev fed : Pool
fed = pushed 5 (create_pool 1 0)

abbrev busy : Pool
busy = taken 0 5 [] fed

abbrev ended : Pool
ended = left 0 (completed 0 5 (stopped busy))

run : Reach (create_pool 1 0) ended
unfolding create_pool thread_count
run =
    next
      (next
        (next (next (next here (enqueues (create_pool 1 0) 5 refl)) (takes fed 0 5 [] refl refl))
          (stops busy))
        (completes (stopped busy) 0 5 refl))
      (leaves (completed 0 5 (stopped busy)) 0 refl refl refl)

Reach-fifo_example : ended.submitted ≡ ended.started ++ ended.tasks
Reach-fifo_example = Reach-fifo 1 0 run

Reach-all_done_example : (ended.tasks ≡ []) × Perm ended.submitted ended.done
unfolding create_pool thread_count
Reach-all_done_example = Reach-all_done 1 0 run refl

Reach-pending_tasks_example : (pending_tasks ended + length ended.started) % size_mod ≡ 0
Reach-pending_tasks_example = Reach-pending_tasks 1 0 run

-- The only worker sleeps, and the pool is stopped.
abbrev sleeping : Waking
sleeping = slept 0 (new_pool 1 0)

abbrev halted : Waking
halted = record sleeping { pool = stopped (create_pool 1 0); notifying_all = true }

stopped-all_finished_example :
    (1 ≤ 2)
    × ((all_finished (create_pool 1 0).workers ≡ true)
        ⊎ ((u : Waking) × WakingStep
              (record halted { asleep = λ i. false; notifying_all = false })
              u))
unfolding create_pool thread_count
stopped-all_finished_example =
    stopped-all_finished 1 0 2 1 halted
      (record halted { asleep = λ i. false; notifying_all = false })
      (after_step (after_step at_once (sleeps (new_pool 1 0) 0 refl refl refl refl))
        (stops_all sleeping refl))
      refl (after_step at_once (notifies_all halted refl))
