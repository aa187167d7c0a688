-- ===== src/ThreadPool.antt =====
-- include/dann/io_thread_pool.h and src/core/io_thread_pool.cpp: workers that run the tasks of a queue.
-- Each critical section and each end of a task is one step, and the steps of the threads come in any
-- order. A waiting worker may look at the queue at any time, as a wait may return without a
-- notification; Progress has the notifications.
pub mod Runs
pub mod Progress
use dann.Prelude.{
  ℕ, zero, suc, ◌+◌, ◌-◌, ◌*◌, ◌%◌, ◌≡◌, Bool, true, false, List, [], ◌∷◌, ◌++◌, Option, none, some,
  get_elem?, set, replicate, ◌==◌, if◌then◌else◌, size_mod,
}
use dann.Types.{Outcome, returned, thrown}

pub data Worker : Type 0 where
  waiting : Worker
  running : ℕ → Worker
  finished : Worker

-- A task is a number. The last three fields record what has happened: the tasks that were submitted,
-- taken from the queue and run to their ends.
pub record Pool : Type 0 where
  pub workers : List Worker
  pub tasks : List ℕ
  pub stop : Bool
  pub pending_count : ℕ
  pub submitted : List ℕ
  pub started : List ℕ
  pub done : List ℕ

-- The number of threads for a request and the hardware's concurrency.
unfoldable pub thread_count : ℕ → ℕ → ℕ
thread_count threads concurrency =
    if threads == 0 then (if concurrency * 2 == 0 then 4 else concurrency * 2) else threads

unfoldable pub create_pool : ℕ → ℕ → Pool
unfolding thread_count
create_pool threads concurrency = record {
  workers = replicate (thread_count threads concurrency) waiting;
  tasks = [];
  stop = false;
  pending_count = 0;
  submitted = [];
  started = [];
  done = [];
}

abbrev pub pushed : ℕ → Pool → Pool
pushed t p = record p { tasks = p.tasks ++ t ∷ []; submitted = p.submitted ++ t ∷ [] }

unfoldable pub enqueue : ℕ → Pool → Outcome Pool
enqueue t p = if p.stop then thrown else returned (pushed t p)

-- Worker i takes the front of the queue, and pending_count, a size_t, goes down.
abbrev pub taken : ℕ → ℕ → List ℕ → Pool → Pool
taken i t rest p = record p {
  workers = set p.workers i (running t);
  tasks = rest;
  pending_count = (p.pending_count + (size_mod - 1)) % size_mod;
  started = p.started ++ t ∷ [];
}

abbrev pub completed : ℕ → ℕ → Pool → Pool
completed i t p = record p { workers = set p.workers i waiting; done = p.done ++ t ∷ [] }

-- Worker i returns from its loop.
abbrev pub left : ℕ → Pool → Pool
left i p = record p { workers = set p.workers i finished }

-- The first half of the destructor.
abbrev pub stopped : Pool → Pool
stopped p = record p { stop = true }

unfoldable pub pending_tasks : Pool → ℕ
pending_tasks p = p.pending_count

pub data Step : Pool → Pool → Type 0 where
  enqueues : (p : Pool) (t : ℕ) → p.stop ≡ false → Step p (pushed t p)
  takes :
      (p : Pool) (i t : ℕ) (rest : List ℕ)
      → get_elem? p.workers i ≡ some waiting
      → p.tasks ≡ t ∷ rest
      → Step p (taken i t rest p)
  completes :
      (p : Pool) (i t : ℕ) → get_elem? p.workers i ≡ some (running t) → Step p (completed i t p)
  leaves :
      (p : Pool) (i : ℕ)
      → get_elem? p.workers i ≡ some waiting
      → p.stop ≡ true
      → p.tasks ≡ []
      → Step p (left i p)
  stops : (p : Pool) → Step p (stopped p)

-- What can come about from a new pool.
pub data Reach (s : Pool) : Pool → Type 0 where
  here : Reach s s
  next : {p q : Pool} → Reach s p → Step p q → Reach s q
