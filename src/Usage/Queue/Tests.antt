-- ===== src/Usage/Queue/Tests.antt =====
-- A run of two workers on one user.
use vpopmail.Common.{
  ℕ, ◌+◌, ◌*◌, ◌≤◌, ◌≡◌, ◌≢◌, ◌⊎◌, refl, true, false, [], ◌∷◌, some, arith, length,
}
use vpopmail.Usage.Queue.{
  waiting, polling, polled, settled, resting, System, put, mod64, queue_push, queue_pop, popped,
  domain_update, user_load,
}
use vpopmail.Usage.Queue.Steps.{
  here, there, take, poll, update, Working, work, load, first, Reach, begin, next, Starts,
}
use vpopmail.Usage.Queue.Count.{total}
use vpopmail.Usage.Queue.Invariant.{IsOwned, IsSized, queue_sound}
use vpopmail.Usage.Queue.Accounts.{sum_of, unsettled, domain_usage_lem}
use vpopmail.Usage.Queue.Drain.{
  Runs, stay, more, Drained, serving, workers_stop, workers_drain, workers_progress,
}

abbrev start : System
start = record {
  queue = [];
  queue_size = 0;
  queue_max_size = 8;
  queue_proc = 0;
  userlist = [];
  processing = λ v. false;
  domain = λ v. 0;
  usage = λ v. 0;
  domain_usage = λ d. 0;
  workers = waiting ∷ waiting ∷ [];
  controller = resting;
}

abbrev loaded : System
loaded = user_load 7 1 start

abbrev queued : System
queued = queue_push true 7 (record loaded { processing = put loaded.processing 7 true })

abbrev busy : System
busy = record queued {
  queue = [];
  queue_size = 0;
  queue_proc = 1;
  workers = waiting ∷ polling 7 ∷ [];
}

abbrev found : System
found = record busy { usage = put busy.usage 7 500; workers = waiting ∷ polled 7 0 ∷ [] }

abbrev updated : System
updated = record (domain_update 1 0 500 found) { workers = waiting ∷ settled 7 ∷ [] }

start-Starts : Starts start
start-Starts = record {
  no_queue = refl;
  no_size = refl;
  no_proc = refl;
  no_users = refl;
  no_usage = λ d. refl;
  all_waiting = (refl, (refl, tt));
  at_rest = refl;
}

queued-Reach : Reach start queued
unfolding user_load
queued-Reach =
    next (next begin (load 7 1 refl refl)) (first 7 true refl (ground arith) (omega arith) refl)

run_busy : Working queued busy
unfolding user_load queue_push queue_pop popped
run_busy = take (ground arith) refl (there here)

run_found : Working busy found
unfolding user_load queue_push
run_found = poll 500 (there here)

run_updated : Working found updated
unfolding user_load queue_push
run_updated = update (there here)

updated-Reach : Reach start updated
updated-Reach = next (next (next queued-Reach (work run_busy)) (work run_found)) (work run_updated)

queue_sound_example :
    IsSized queued
    × ((v : ℕ) → IsOwned v queued)
    × ((queued.queue_size ≡ 0) ⊎ ((u : ℕ) × (r : System) × (queue_pop queued ≡ some (u, r))))
queue_sound_example = queue_sound start-Starts queued-Reach

no_unsettled : (u : ℕ) → total (unsettled u) updated.workers ≡ 0
no_unsettled u = refl

domain_usage_lem_example :
    mod64 (updated.domain_usage 1) ≡ mod64 (sum_of updated.domain updated.usage 1 updated.userlist)
domain_usage_lem_example = domain_usage_lem start-Starts updated-Reach no_unsettled 1

-- The same, computed.
domain_usage_500 : updated.domain_usage 1 ≡ 500
unfolding user_load queue_push domain_update
domain_usage_500 = refl

workers_stop_example : 2 ≤ 5 * (length queued.queue + length queued.workers)
workers_stop_example = workers_stop (more (more stay run_busy) run_found)

one_serves : total serving queued.workers ≢ 0
unfolding user_load queue_push
one_serves = ground arith

workers_drain_example : (n : ℕ) × (u : System) × Runs queued n u × Drained u
workers_drain_example = workers_drain start-Starts queued-Reach one_serves

workers_progress_example : Drained queued ⊎ ((u : System) × Working queued u)
workers_progress_example = workers_progress start-Starts queued-Reach one_serves
