-- ===== src/Usage/Queue.antt =====
-- vusaged/queue.c: the work queue between the controller thread and the workers, with the parts of
-- user.c and domain.c that the threads share. A `user_t` is a number, its address.
-- Each critical section is one step; Usage.Queue.Steps has the threads.
pub mod Steps
pub mod Count
pub mod Invariant
pub mod Accounts
pub mod Drain
mod Tests
use vpopmail.Common.{
  ℕ, suc, ◌+◌, ◌-◌, ◌%◌, ◌^◌, Bool, true, false, List, [], ◌∷◌, Option, none, some, ◌==◌,
  if◌then◌else◌,
}

-- Where a worker stands: waiting for an item, before and behind the poll of its item's userstore (with
-- the usage it had before), behind the update of the domain, behind the reset of `processing`, ended.
pub data Worker : Type 0 where
  waiting : Worker
  polling : ℕ → Worker
  polled : ℕ → ℕ → Worker
  settled : ℕ → Worker
  done : Worker
  stopped : Worker

-- The controller has no user, or one on which it has set `processing`.
pub data Controller : Type 0 where
  resting : Controller
  holding : ℕ → Controller

-- `usage` is the amount in the userstore of a user, 0 before it is loaded, and `domain_usage` that in
-- a domain. The counts of messages are kept in the same way and left out.
pub record System : Type 0 where
  pub queue : List ℕ
  pub queue_size : ℕ
  pub queue_max_size : ℕ
  pub queue_proc : ℕ
  pub userlist : List ℕ
  pub processing : ℕ → Bool
  pub domain : ℕ → ℕ
  pub usage : ℕ → ℕ
  pub domain_usage : ℕ → ℕ
  pub workers : List Worker
  pub controller : Controller

abbrev pub put {ℓ} : {A : Type ℓ} → (ℕ → A) → ℕ → A → ℕ → A
put f u x v = if u == v then x else f v

-- `queue_push`: the Boolean is whether `malloc` succeeds. The callers do not look at the answer.
unfoldable pub queue_push : Bool → ℕ → System → System
queue_push false u s = s
queue_push true u s = record s { queue = u ∷ s.queue; queue_size = suc s.queue_size }

unfoldable pub popped : List ℕ → System → Option (ℕ × System)
popped [] s = none
popped (u ∷ us) s = some (u, record s { queue = us; queue_size = s.queue_size - 1 })

-- `queue_pop`; `none` is the use of a null pointer.
unfoldable pub queue_pop : System → Option (ℕ × System)
unfolding popped
queue_pop s = popped s.queue s

abbrev pub mod64 : ℕ → ℕ
mod64 n = n % 2 ^ 64

-- `domain_update`, modulo 2 ^ 64.
unfoldable pub domain_update : ℕ → ℕ → ℕ → System → System
domain_update d before after s = record s {
  domain_usage = put s.domain_usage d (mod64 (s.domain_usage d + (2 ^ 64 - mod64 before) + after));
}

abbrev remove : ℕ → List ℕ → List ℕ
remove u [] = []
remove u (v ∷ vs) = if u == v then vs else v ∷ remove u vs

-- `user_load` on the fresh address `u`, for a user of domain `d`.
unfoldable pub user_load : ℕ → ℕ → System → System
user_load u d s = record s {
  userlist = u ∷ s.userlist;
  processing = put s.processing u false;
  domain = put s.domain u d;
  usage = put s.usage u 0;
}

-- `user_verify` on a user that is gone.
unfoldable pub user_lost : ℕ → System → System
unfolding domain_update
user_lost u s =
    let t = domain_update (s.domain u) (s.usage u) 0 s in
    record t { userlist = remove u s.userlist }
