-- ===== src/ThreadPool/Runs.antt =====
-- What a pool has done with its tasks, whatever the order of the steps.
use mathlib.Core.List.{perm_middle, perm_append_comm}
use mathlib.Core.List.Perm
use dann.Prelude.{
  ℕ, zero, suc, ◌+◌, ◌-◌, ◌%◌, ◌<◌, ◌≡◌, refl, ◌∙◌, Bool, true, false, List, [], ◌∷◌, ◌++◌,
  append-nil, append_assoc, some, get_elem?, set, replicate, length, length-append,
  length-replicate, length-set, Perm, size_mod, arith,
}
use dann.ThreadPool.{
  Worker, waiting, running, finished, Pool, thread_count, create_pool, pending_tasks, Step,
  enqueues, takes, completes, leaves, stops, Reach, here, next,
}

-- The tasks that workers are running.
abbrev task_of : Worker → List ℕ
task_of waiting = []
task_of (running t) = t ∷ []
task_of finished = []

abbrev pub in_work : List Worker → List ℕ
in_work [] = []
in_work (w ∷ ws) = task_of w ++ in_work ws

take-in_work :
    (ws : List Worker) (i t : ℕ)
    → get_elem? ws i ≡ some waiting
    → Perm (t ∷ in_work ws) (in_work (set ws i (running t)))
take-in_work [] i t e = ground arith
take-in_work (waiting ∷ ws) zero t e = Perm.rfl
take-in_work (running s ∷ ws) zero t e = absurd (ground arith)
take-in_work (finished ∷ ws) zero t e = absurd (ground arith)
take-in_work (w ∷ ws) (suc i) t e =
    Perm.trans (Perm.symm (perm_middle (task_of w) (in_work ws)))
      (Perm.append_left (task_of w) (take-in_work ws i t e))

abbrev is_finished : Worker → Bool
is_finished waiting = false
is_finished (running t) = false
is_finished finished = true

complete-in_work :
    (ws : List Worker) (i t : ℕ)
    → get_elem? ws i ≡ some (running t)
    → Perm (in_work ws) (t ∷ in_work (set ws i waiting))
complete-in_work [] i t e = ground arith
complete-in_work (waiting ∷ ws) zero t e = absurd (ground arith)
complete-in_work (running s ∷ ws) zero t e = let same : s ≡ t = ground arith in rw same Perm.rfl
complete-in_work (finished ∷ ws) zero t e = absurd (ground arith)
complete-in_work (w ∷ ws) (suc i) t e =
    Perm.trans (Perm.append_left (task_of w) (complete-in_work ws i t e))
      (perm_middle (task_of w) (in_work (set ws i waiting)))

leave-in_work :
    (ws : List Worker) (i : ℕ)
    → get_elem? ws i ≡ some waiting
    → in_work (set ws i finished) ≡ in_work ws
leave-in_work [] i e = refl
leave-in_work (waiting ∷ ws) zero e = refl
leave-in_work (running s ∷ ws) zero e = absurd (ground arith)
leave-in_work (finished ∷ ws) zero e = absurd (ground arith)
leave-in_work (w ∷ ws) (suc i) e = rw (leave-in_work ws i e)

-- A worker other than one that has returned is put in place i.
finished-set :
    (ws : List Worker) (i j : ℕ) (w : Worker)
    → is_finished w ≡ false
    → get_elem? (set ws i w) j ≡ some finished
    → get_elem? ws j ≡ some finished
finished-set [] i j w h e = e
finished-set (v ∷ ws) zero zero waiting h e = absurd (ground arith)
finished-set (v ∷ ws) zero zero (running t) h e = absurd (ground arith)
finished-set (v ∷ ws) zero zero finished h e = absurd (ground arith)
finished-set (v ∷ ws) zero (suc j) w h e = e
finished-set (v ∷ ws) (suc i) zero w h e = e
finished-set (v ∷ ws) (suc i) (suc j) w h e = finished-set ws i j w h e

record IsSound (p : Pool) : Type 0 where
  order : p.submitted ≡ p.started ++ p.tasks
  ran : Perm p.started (p.done ++ in_work p.workers)
  drained : (i : ℕ) → get_elem? p.workers i ≡ some finished → (p.stop ≡ true) × (p.tasks ≡ [])
  wrapped : (p.pending_count + length p.started) % size_mod ≡ 0

wrap_next :
    (n s : ℕ) → (n + s) % size_mod ≡ 0 → ((n + (size_mod - 1)) % size_mod + (s + 1)) % size_mod ≡ 0
wrap_next n s h = omega arith

Step-IsSound : {p q : Pool} → Step p q → IsSound p → IsSound q
Step-IsSound (enqueues p t running_on) h = record {
  order = rw (h.order, append_assoc);
  ran = h.ran;
  drained = λ i e. absurd (ground (arith, (h.drained i e).0));
  wrapped = h.wrapped;
}
Step-IsSound (takes p i t rest free front) h = record {
  order = h.order ∙ rw (front, append_assoc);
  ran = Perm.trans (Perm.append_right (t ∷ []) h.ran) (
      rw append_assoc (
        Perm.append_left p.done (
          Perm.trans (perm_append_comm (in_work p.workers) (t ∷ []))
            (take-in_work p.workers i t free))));
  drained = λ j e.
      let none_left : p.tasks ≡ [] =
        (h.drained j (finished-set p.workers i j (running t) refl e)).1 in
      absurd (ground (arith, front, none_left));
  wrapped =
      rw (length-append p.started (t ∷ []))
        (wrap_next p.pending_count (length p.started) h.wrapped);
}
Step-IsSound (completes p i t busy) h = record {
  order = h.order;
  ran =
      Perm.trans h.ran
        (rw append_assoc (Perm.append_left p.done (complete-in_work p.workers i t busy)));
  drained = λ j e. h.drained j (finished-set p.workers i j waiting refl e);
  wrapped = h.wrapped;
}
Step-IsSound (leaves p i free on_stop empty) h = record {
  order = h.order;
  ran = rw (leave-in_work p.workers i free) h.ran;
  drained = λ j e. (on_stop, empty);
  wrapped = h.wrapped;
}
Step-IsSound (stops p) h = record {
  order = h.order;
  ran = h.ran;
  drained = λ i e. (refl, (h.drained i e).1);
  wrapped = h.wrapped;
}

in_work-replicate : (n : ℕ) → in_work (replicate n waiting) ≡ []
in_work-replicate zero = refl
in_work-replicate (suc n) = in_work-replicate n

waiting-replicate : (n i : ℕ) → get_elem? (replicate n waiting) i ≡ some finished → ⊥
waiting-replicate zero i e = ground arith
waiting-replicate (suc n) zero e = ground arith
waiting-replicate (suc n) (suc i) e = waiting-replicate n i e

create_pool-IsSound : (threads concurrency : ℕ) → IsSound (create_pool threads concurrency)
unfolding create_pool
create_pool-IsSound threads concurrency = record {
  order = refl;
  ran = rw (in_work-replicate (thread_count threads concurrency)) Perm.rfl;
  drained = λ i e. absurd (waiting-replicate (thread_count threads concurrency) i e);
  wrapped = omega arith;
}

Reach-IsSound : {p q : Pool} → IsSound p → Reach p q → IsSound q
Reach-IsSound h here = h
Reach-IsSound h (next r s) = Step-IsSound s (Reach-IsSound h r)

Step-length : {p q : Pool} → Step p q → length q.workers ≡ length p.workers
Step-length (enqueues p t running_on) = refl
Step-length (takes p i t rest free front) = length-set p.workers i (running t)
Step-length (completes p i t busy) = length-set p.workers i waiting
Step-length (leaves p i free on_stop empty) = length-set p.workers i finished
Step-length (stops p) = refl

Reach-length : {p q : Pool} → Reach p q → length q.workers ≡ length p.workers
Reach-length here = refl
Reach-length (next r s) = Step-length s ∙ Reach-length r

thread_count-lt : (threads concurrency : ℕ) → 0 < thread_count threads concurrency
unfolding thread_count
thread_count-lt threads concurrency = ground arith

-- All workers have returned, as the destructor waits for.
abbrev pub all_finished : List Worker → Bool
all_finished [] = true
all_finished (w ∷ ws) = elim (is_finished w) [ true ↦ all_finished ws | false ↦ false ]

first_finished :
    (ws : List Worker) → 0 < length ws → all_finished ws ≡ true → get_elem? ws 0 ≡ some finished
first_finished [] h e = absurd (omega arith)
first_finished (waiting ∷ ws) h e = absurd (ground arith)
first_finished (running t ∷ ws) h e = absurd (ground arith)
first_finished (finished ∷ ws) h e = refl

none_in_work : (ws : List Worker) → all_finished ws ≡ true → in_work ws ≡ []
none_in_work [] e = refl
none_in_work (waiting ∷ ws) e = absurd (ground arith)
none_in_work (running t ∷ ws) e = absurd (ground arith)
none_in_work (finished ∷ ws) e = none_in_work ws e

-- In every order of the steps, tasks are taken from the queue in the order of their submission, each
-- once: those taken and those in the queue make up those submitted.
pub Reach-fifo :
    (threads concurrency : ℕ) {p : Pool}
    → Reach (create_pool threads concurrency) p
    → p.submitted ≡ p.started ++ p.tasks
Reach-fifo threads concurrency r =
    let h = Reach-IsSound (create_pool-IsSound threads concurrency) r in h.order

-- When all workers of a pool have returned, the queue is empty and the tasks that have been run are
-- those that were submitted, each as often as it was.
pub Reach-all_done :
    (threads concurrency : ℕ) {p : Pool}
    → Reach (create_pool threads concurrency) p
    → all_finished p.workers ≡ true
    → (p.tasks ≡ []) × Perm p.submitted p.done
unfolding create_pool
Reach-all_done threads concurrency {p} r e =
    (empty, rw (h.order, empty, append-nil) (rw (none_in_work p.workers e, append-nil) at h.ran))
  where
    h : IsSound p
    h = Reach-IsSound (create_pool-IsSound threads concurrency) r

    some_worker : 0 < length p.workers
    some_worker = omega (
      arith,
      Reach-length r,
      length-replicate (thread_count threads concurrency) waiting,
      thread_count-lt threads concurrency,
    )

    empty : p.tasks ≡ []
    empty = (h.drained 0 (first_finished p.workers some_worker e)).1

-- The number of pending tasks that the pool reports and the number of tasks that have been taken add up
-- to 0 modulo 2^64, whatever waits in the queue.
pub Reach-pending_tasks :
    (threads concurrency : ℕ) {p : Pool}
    → Reach (create_pool threads concurrency) p
    → (pending_tasks p + length p.started) % size_mod ≡ 0
unfolding pending_tasks
Reach-pending_tasks threads concurrency r =
    let h = Reach-IsSound (create_pool-IsSound threads concurrency) r in h.wrapped
