-- ===== src/CannonProxy/ThreadPool.antt =====
-- cannon_proxy/src/thread_pool/ThreadPool.h: the workers of a pool, the threads that hand tasks to
-- it and the destructor, interleaved in any order. What is done while the mutex is held is one step.
pub mod Invariant
pub mod Progress
use cpp_project.Prelude.{
  ℕ, suc, ◌≡◌, Bool, true, false, List, [], ◌∷◌, ◌++◌, map, Option, some, length, get_elem?, set,
  replicate, count, if◌then◌else◌,
}
use cpp_project.Run.{Run, ok, fault, exception}

-- Where a worker is: about to test the condition, blocked in `wait`, in `task()`, or past its loop.
pub data Worker (Task : Type 0) : Type 0 where
  ready asleep returned : Worker Task
  running : Task → Worker Task

-- Where the destructor is: after setting `stop`, after `notify_all`, or after the last `join`.
pub data Destructor : Type 0 where
  not_called unlocked joining done : Destructor

-- The fields of the pool; then the calls of `notify_one` that are due, and the tasks that were
-- handed to the pool, that workers have taken and that have ended, in order.
pub record Pool (Task : Type 0) : Type 0 where
  pub tasks : List Task
  pub workers : List (Worker Task)
  pub stop : Bool
  pub destructor : Destructor
  pub notices : ℕ
  pub handed : List Task
  pub begun : List Task
  pub finished : List Task

module _ {Task : Type 0} where
  abbrev pub is_asleep : Worker Task → Bool
  is_asleep asleep = true
  is_asleep ready = false
  is_asleep returned = false
  is_asleep (running t) = false

  abbrev pub is_returned : Worker Task → Bool
  is_returned returned = true
  is_returned ready = false
  is_returned asleep = false
  is_returned (running t) = false

  -- Ready, or in a task.
  abbrev pub is_awake : Worker Task → Bool
  is_awake ready = true
  is_awake (running t) = true
  is_awake asleep = false
  is_awake returned = false

  -- What `notify_all` does to a worker.
  abbrev pub wake : Worker Task → Worker Task
  wake asleep = ready
  wake ready = ready
  wake returned = returned
  wake (running t) = running t

  -- The constructor.
  unfoldable pub new : ℕ → Pool Task
  new threads = record {
    tasks = [];
    workers = replicate threads ready;
    stop = false;
    destructor = Destructor.not_called;
    notices = 0;
    handed = [];
    begun = [];
    finished = [];
  }

  -- What a worker does while it holds the mutex, by `stop` and `tasks`.
  unfoldable pub turn_at : Pool Task → ℕ → Bool → List Task → Pool Task
  turn_at p i false [] = record p { workers = set p.workers i asleep }
  turn_at p i true [] = record p { workers = set p.workers i returned }
  turn_at p i stop (task ∷ rest) = record p {
    workers = set p.workers i (running task);
    tasks = rest;
    begun = p.begun ++ task ∷ [];
  }

  unfoldable pub turn : Pool Task → ℕ → Pool Task
  unfolding turn_at
  turn p i = turn_at p i p.stop p.tasks

  unfoldable pub finish : Pool Task → ℕ → Task → Pool Task
  finish p i task = record p { workers = set p.workers i ready; finished = p.finished ++ task ∷ [] }

  unfoldable pub enqueued : Pool Task → Task → Pool Task
  enqueued p task = record p {
    tasks = p.tasks ++ task ∷ [];
    notices = suc p.notices;
    handed = p.handed ++ task ∷ [];
  }

  -- `enqueue`, up to the call of `notify_one`.
  unfoldable pub enqueue : Pool Task → Task → Run (Pool Task)
  enqueue p task = if p.stop then fault exception else ok (enqueued p task)

  unfoldable pub wake_one : Pool Task → ℕ → Pool Task
  wake_one p i = record p { workers = set p.workers i ready }

  unfoldable pub stop_all : Pool Task → Pool Task
  stop_all p = record p { stop = true; destructor = Destructor.unlocked }

  unfoldable pub notify_all : Pool Task → Pool Task
  notify_all p = record p { workers = map wake p.workers; destructor = Destructor.joining }

  pub data Step (p : Pool Task) : Pool Task → Type 0 where
    work : (i : ℕ) → get_elem? p.workers i ≡ some ready → Step p (turn p i)
    end_task :
        (i : ℕ) (task : Task)
        → get_elem? p.workers i ≡ some (running task)
        → Step p (finish p i task)
    -- A worker may leave `wait` without a notice.
    spurious : (i : ℕ) → get_elem? p.workers i ≡ some asleep → Step p (wake_one p i)
    hand : (task : Task) (p' : Pool Task) → enqueue p task ≡ ok p' → Step p p'
    notify_one :
        (i notices : ℕ)
        → p.notices ≡ suc notices
        → get_elem? p.workers i ≡ some asleep
        → Step p (record (wake_one p i) { notices = notices })
    notify_nobody :
        (notices : ℕ)
        → p.notices ≡ suc notices
        → count is_asleep p.workers ≡ 0
        → Step p (record p { notices = notices })
    destroy : p.destructor ≡ Destructor.not_called → Step p (stop_all p)
    notify_rest : p.destructor ≡ Destructor.unlocked → Step p (notify_all p)
    join :
        p.destructor ≡ Destructor.joining
        → count is_returned p.workers ≡ length p.workers
        → Step p (record p { destructor = Destructor.done })

  pub data Reach (threads : ℕ) : Pool Task → Type 0 where
    start : Reach threads (new threads)
    later : {p p' : Pool Task} → Reach threads p → Step p p' → Reach threads p'
