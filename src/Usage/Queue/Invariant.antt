-- ===== src/Usage/Queue/Invariant.antt =====
-- What holds of the queue and of the users' flags in every state that the threads reach.
use vpopmail.Common.{
  ◌⊎◌, inl, inr, Bool-cases, ◌==◌, ℕ, suc, ◌-◌, ◌≤◌, ◌≡◌, ◌≢◌, refl, sym, true, false, List, [],
  ◌∷◌, some, arith, length,
}
use mathlib.Core.Path.{subst}
use vpopmail.Usage.Queue.{
  Worker, System, queue_push, queue_pop, popped, domain_update, user_load, user_lost,
}
use vpopmail.Usage.Queue.Steps.{
  count, Working, take, poll, update, unset, release, stop_waiting, stop_done, Step, work, load,
  first, claim, lose, full, offer, Reach, begin, next, Starts,
}
use vpopmail.Usage.Queue.Count.{
  bit, owns, counted, total, owners, total-Turn, total-AllWaiting, count-remove, Popped,
  queue_pop-Popped,
}

-- At most one place has a user, only one whose flag is set, and only one that is in the list of users,
-- in which it stands once.
pub record IsOwned (u : ℕ) (s : System) : Type 0 where
  pub flagged : owners u s ≤ bit (s.processing u)
  pub listed : owners u s ≤ count u s.userlist
  pub once : count u s.userlist ≤ 1

-- The size is that of the queue, and within its limit; `queue_proc` counts the busy workers at least.
pub record IsSized (s : System) : Type 0 where
  pub sized : s.queue_size ≡ length s.queue
  pub bounded : s.queue_size ≤ s.queue_max_size
  pub proc : total counted s.workers ≤ s.queue_proc

-- What a worker takes is on top of the queue.
pub taken :
    {s t : System} {u : ℕ} {ws : List Worker} (P : System → Type 0) (p : Popped s u t)
    → P (record s {
      queue = p.rest;
      queue_size = s.queue_size - 1;
      queue_proc = suc s.queue_proc;
      workers = ws;
    })
    → P (record t { queue_proc = suc t.queue_proc; workers = ws })
taken {ws} P p h =
    subst (λ (x : System). P (record x { queue_proc = suc x.queue_proc; workers = ws }))
      (sym p.after) h

pub Working-IsSized : {s t : System} → Working s t → IsSized s → IsSized t
unfolding domain_update
Working-IsSized {s} (take {u} {t} n e tr) h =
    let p = queue_pop-Popped s u t e in
    taken IsSized p (ground (arith, total-Turn counted tr, p.top))
Working-IsSized (poll after tr) h = ground (arith, total-Turn counted tr)
Working-IsSized (update tr) h = ground (arith, total-Turn counted tr)
Working-IsSized (unset tr) h = ground (arith, total-Turn counted tr)
Working-IsSized (release tr) h = ground (arith, total-Turn counted tr)
Working-IsSized (stop_waiting tr) h = ground (arith, total-Turn counted tr)
Working-IsSized (stop_done tr) h = ground (arith, total-Turn counted tr)

pub Step-IsSized : {s t : System} → Step s t → IsSized s → IsSized t
unfolding domain_update user_load user_lost queue_push
Step-IsSized (work w) h = Working-IsSized w h
Step-IsSized (load u d r n) h = ground arith
Step-IsSized (first u true r c b p) h = ground arith
Step-IsSized (first u false r c b p) h = ground arith
Step-IsSized (claim u r c p) h = ground arith
Step-IsSized (lose u c) h = ground arith
Step-IsSized (full u c b) h = ground arith
Step-IsSized (offer u true c b) h = ground arith
Step-IsSized (offer u false c b) h = ground arith

Working-IsOwned : (v : ℕ) {s t : System} → Working s t → IsOwned v s → IsOwned v t
unfolding domain_update
Working-IsOwned v {s} (take {u} {t} n e tr) h =
    let p = queue_pop-Popped s u t e in
    taken (IsOwned v) p (ground (arith, total-Turn (owns v) tr, p.top))
Working-IsOwned v (poll after tr) h = ground (arith, total-Turn (owns v) tr)
Working-IsOwned v (update tr) h = ground (arith, total-Turn (owns v) tr)
Working-IsOwned v (unset tr) h = ground (arith, total-Turn (owns v) tr)
Working-IsOwned v (release tr) h = ground (arith, total-Turn (owns v) tr)
Working-IsOwned v (stop_waiting tr) h = ground (arith, total-Turn (owns v) tr)
Working-IsOwned v (stop_done tr) h = ground (arith, total-Turn (owns v) tr)

pub Step-IsOwned : (v : ℕ) {s t : System} → Step s t → IsOwned v s → IsOwned v t
unfolding domain_update user_load user_lost queue_push
Step-IsOwned v (work w) h = Working-IsOwned v w h
Step-IsOwned v (load u d r n) h = ground arith
Step-IsOwned v (first u true r c b p) h = ground arith
Step-IsOwned v (first u false r c b p) h = ground arith
Step-IsOwned v (claim u r c p) h = ground arith
Step-IsOwned v {s} (lose u c) h = ground (arith, count-remove u v s.userlist)
Step-IsOwned v (full u c b) h = ground arith
Step-IsOwned v (offer u true c b) h = ground arith
Step-IsOwned v (offer u false c b) h = ground arith

-- A queue that is not empty by its size has an item on top.
pub pop_ready :
    (s : System)
    → IsSized s
    → s.queue_size ≢ 0
    → (u : ℕ) × (t : System) × (queue_pop s ≡ some (u, t))
unfolding queue_pop popped
pop_ready s h n = top s.queue (ground (arith, h.sized))
  where
    top : (q : List ℕ) → length q ≢ 0 → (u : ℕ) × (t : System) × (popped q s ≡ some (u, t))
    top [] e = absurd (e refl)
    top (u ∷ us) e = (u, record s { queue = us; queue_size = s.queue_size - 1 }, refl)

found :
    (s : System)
    → IsSized s
    → (s.queue_size ≡ 0) ⊎ ((u : ℕ) × (t : System) × (queue_pop s ≡ some (u, t)))
found s h = elim (Bool-cases (s.queue_size == 0)) [
  | inl z ↦ inl (ground arith)
  | inr n ↦ inr (pop_ready s h (ground arith))
]

pub Starts-IsSized : {s : System} → Starts s → IsSized s
Starts-IsSized {s} st =
    ground (arith, st.no_queue, st.no_size, total-AllWaiting counted s.workers refl st.all_waiting)

pub Starts-IsOwned : (v : ℕ) {s : System} → Starts s → IsOwned v s
Starts-IsOwned v {s} st = ground (
  arith,
  st.no_queue,
  st.no_users,
  st.at_rest,
  total-AllWaiting (owns v) s.workers refl st.all_waiting,
)

pub Reach-IsSized : {s t : System} → Reach s t → IsSized s → IsSized t
Reach-IsSized begin h = h
Reach-IsSized (next r st) h = Step-IsSized st (Reach-IsSized r h)

pub Reach-IsOwned : (v : ℕ) {s t : System} → Reach s t → IsOwned v s → IsOwned v t
Reach-IsOwned v begin h = h
Reach-IsOwned v (next r st) h = Step-IsOwned v st (Reach-IsOwned v r h)

-- In every state that the threads reach, `queue_size` is the length of the queue and within its limit,
-- so that `queue_pop` finds an item unless the size is 0; and every user is queued, polled by a worker
-- or claimed by the controller at most once in all, only with its flag `processing` set, and only while
-- it stands in the list of users.
pub queue_sound :
    {s t : System}
    → Starts s
    → Reach s t
    → IsSized t
      × ((v : ℕ) → IsOwned v t)
      × ((t.queue_size ≡ 0) ⊎ ((u : ℕ) × (r : System) × (queue_pop t ≡ some (u, r))))
queue_sound {t} st r =
    let sized = Reach-IsSized r (Starts-IsSized st) in
    (sized, λ v. Reach-IsOwned v r (Starts-IsOwned v st), found t sized)
