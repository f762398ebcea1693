-- ===== src/Usage/Queue/Steps.antt =====
-- vusaged/queue.c: what `queue_controller` and `queue_worker` do between two calls on a lock.
use vpopmail.Common.{
  ℕ, suc, ◌+◌, ◌-◌, ◌≤◌, ◌<◌, ◌≡◌, ◌≢◌, Bool, true, false, List, [], ◌∷◌, some, ◌==◌, if◌then◌else◌,
}
use vpopmail.Usage.Queue.{
  Worker, waiting, polling, polled, settled, done, stopped, resting, holding, System, put,
  queue_push, queue_pop, domain_update, user_load, user_lost,
}

abbrev pub count : ℕ → List ℕ → ℕ
count u [] = 0
count u (v ∷ vs) = (if u == v then 1 else 0) + count u vs

-- One of the workers goes from one place to another.
pub data Turn (w w' : Worker) : List Worker → List Worker → Type 0 where
  here : {ws : List Worker} → Turn w w' (w ∷ ws) (w' ∷ ws)
  there : {v : Worker} {ws ws' : List Worker} → Turn w w' ws ws' → Turn w w' (v ∷ ws) (v ∷ ws')

-- The workers. `poll` is `userstore_poll` with whatever usage it finds; a worker stops once the flag
-- of the shutdown is set.
pub data Working (s : System) : System → Type 0 where
  take :
      {u : ℕ} {t : System} {ws : List Worker}
      → s.queue_size ≢ 0
      → queue_pop s ≡ some (u, t)
      → Turn waiting (polling u) s.workers ws
      → Working s (record t { queue_proc = suc t.queue_proc; workers = ws })
  poll :
      {u : ℕ} {ws : List Worker} (after : ℕ)
      → Turn (polling u) (polled u (s.usage u)) s.workers ws
      → Working s (record s { usage = put s.usage u after; workers = ws })
  update :
      {u before : ℕ} {ws : List Worker}
      → Turn (polled u before) (settled u) s.workers ws
      → Working s (record (domain_update (s.domain u) before (s.usage u) s) { workers = ws })
  unset :
      {u : ℕ} {ws : List Worker}
      → Turn (settled u) done s.workers ws
      → Working s (record s { processing = put s.processing u false; workers = ws })
  release :
      {ws : List Worker}
      → Turn done waiting s.workers ws
      → Working s (record s { queue_proc = s.queue_proc - 1; workers = ws })
  stop_waiting :
      {ws : List Worker} → Turn waiting stopped s.workers ws → Working s (record s { workers = ws })
  stop_done :
      {ws : List Worker} → Turn done stopped s.workers ws → Working s (record s { workers = ws })

-- The controller, and the workers. `first` is the first stage, on a user that `user_get` found; the
-- others are the second stage, in which a user is claimed before the queue is locked.
pub data Step (s : System) : System → Type 0 where
  work : {t : System} → Working s t → Step s t
  load : (u d : ℕ) → s.controller ≡ resting → count u s.userlist ≡ 0 → Step s (user_load u d s)
  first :
      (u : ℕ) (allocates : Bool)
      → s.controller ≡ resting
      → count u s.userlist ≢ 0
      → s.queue_size < s.queue_max_size
      → s.processing u ≡ false
      → Step s (queue_push allocates u (record s { processing = put s.processing u true }))
  claim :
      (u : ℕ)
      → s.controller ≡ resting
      → count u s.userlist ≢ 0
      → s.processing u ≡ false
      → Step s (record s { processing = put s.processing u true; controller = holding u })
  lose :
      (u : ℕ) → s.controller ≡ holding u → Step s (record (user_lost u s) { controller = resting })
  full :
      (u : ℕ)
      → s.controller ≡ holding u
      → s.queue_max_size ≤ s.queue_size
      → Step s (record s { processing = put s.processing u false; controller = resting })
  offer :
      (u : ℕ) (allocates : Bool)
      → s.controller ≡ holding u
      → s.queue_size < s.queue_max_size
      → Step s (record (queue_push allocates u s) { controller = resting })

pub data Reach (s : System) : System → Type 0 where
  begin : Reach s s
  next : {t u : System} → Reach s t → Step t u → Reach s u

abbrev pub AllWaiting : List Worker → Type 0
AllWaiting [] = Unit
AllWaiting (w ∷ ws) = (w ≡ waiting) × AllWaiting ws

-- What `queue_init` leaves, with a number of workers started and no users yet.
pub record Starts (s : System) : Type 0 where
  pub no_queue : s.queue ≡ []
  pub no_size : s.queue_size ≡ 0
  pub no_proc : s.queue_proc ≡ 0
  pub no_users : s.userlist ≡ []
  pub no_usage : (d : ℕ) → s.domain_usage d ≡ 0
  pub all_waiting : AllWaiting s.workers
  pub at_rest : s.controller ≡ resting
