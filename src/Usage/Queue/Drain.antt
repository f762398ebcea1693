-- ===== src/Usage/Queue/Drain.antt =====
-- vusaged/queue.c, `queue_worker`: how long the workers run while the controller adds nothing.
use vpopmail.Common.{
  ℕ, zero, suc, ◌+◌, ◌-◌, ◌*◌, ◌≤◌, ◌<◌, ◌≡◌, ◌≢◌, ◌⊎◌, inl, inr, refl, sym, ◌∙◌, false, List, [],
  ◌∷◌, Option, none, some, arith, All, length,
}
use mathlib.Core.Path.{subst}
use mathlib.Core.Option.{some-injective, none-ne-some}
use vpopmail.Usage.Queue.{
  Worker, waiting, polling, polled, settled, done, stopped, System, put, domain_update,
}
use vpopmail.Usage.Queue.Steps.{
  Turn, here, there, Reach, Starts, Working, take, poll, update, unset, release, stop_waiting,
  stop_done,
}
use vpopmail.Usage.Queue.Count.{total, total-Turn, queue_pop-Popped}
use vpopmail.Usage.Queue.Invariant.{
  IsSized, taken, Working-IsSized, Starts-IsSized, Reach-IsSized, pop_ready,
}

-- How many steps a worker is away from its end; an item of the queue adds five.
abbrev pub distance : Worker → ℕ
distance stopped = 0
distance waiting = 1
distance done = 2
distance (settled u) = 3
distance (polled u before) = 4
distance (polling u) = 5

abbrev pub measure : System → ℕ
measure s = 5 * length s.queue + total distance s.workers

-- A run of `n` steps of the workers.
pub data Runs (s : System) : ℕ → System → Type 0 where
  stay : Runs s 0 s
  more : {n : ℕ} {t u : System} → Runs s n t → Working t u → Runs s (suc n) u

Working-measure : {s t : System} → Working s t → measure t < measure s
unfolding domain_update
Working-measure {s} (take {u} {t} n e tr) =
    let p = queue_pop-Popped s u t e in
    taken (λ (x : System). measure x < measure s) p (ground (arith, total-Turn distance tr, p.top))
Working-measure (poll after tr) = ground (arith, total-Turn distance tr)
Working-measure (update tr) = ground (arith, total-Turn distance tr)
Working-measure (unset tr) = ground (arith, total-Turn distance tr)
Working-measure (release tr) = ground (arith, total-Turn distance tr)
Working-measure (stop_waiting tr) = ground (arith, total-Turn distance tr)
Working-measure (stop_done tr) = ground (arith, total-Turn distance tr)

Runs-measure : {s t : System} {n : ℕ} → Runs s n t → n + measure t ≤ measure s
Runs-measure stay = omega arith
Runs-measure (more r w) = omega (arith, Runs-measure r, Working-measure w)

-- Whether a worker still answers.
abbrev pub serving : Worker → ℕ
serving stopped = 0
serving _ = 1

-- The state of a worker that has nothing to do.
abbrev pub Idle : Worker → Type 0
Idle w = (w ≡ waiting) ⊎ (w ≡ stopped)

-- The next place of a worker that has an item.
advance : (ℕ → ℕ) → Worker → Option Worker
advance usage waiting = none
advance usage (polling u) = some (polled u (usage u))
advance usage (polled u before) = some (settled u)
advance usage (settled u) = some done
advance usage done = some waiting
advance usage stopped = none

-- A worker that goes on by `advance`.
abbrev Moves : (ℕ → ℕ) → List Worker → Type 0
Moves usage ws =
    (w w' : Worker) × (ws' : List Worker) × Turn w w' ws ws' × (advance usage w ≡ some w')

Moves-there :
    (usage : ℕ → ℕ) (v : Worker) (ws : List Worker) → Moves usage ws → Moves usage (v ∷ ws)
Moves-there usage v ws (w, w', ws', t, e) = (w, w', v ∷ ws', there t, e)

movable : (usage : ℕ → ℕ) (ws : List Worker) → All Idle ws ⊎ Moves usage ws
unfolding advance
movable usage [] = inl tt
movable usage (w ∷ ws) = front w (movable usage ws)
  where
    front : (w : Worker) → All Idle ws ⊎ Moves usage ws → All Idle (w ∷ ws) ⊎ Moves usage (w ∷ ws)
    front waiting (inl h) = inl (inl refl, h)
    front stopped (inl h) = inl (inr refl, h)
    front waiting (inr m) = inr (Moves-there usage waiting ws m)
    front stopped (inr m) = inr (Moves-there usage stopped ws m)
    front (polling u) h = inr (polling u, polled u (usage u), polled u (usage u) ∷ ws, here, refl)
    front (polled u b) h = inr (polled u b, settled u, settled u ∷ ws, here, refl)
    front (settled u) h = inr (settled u, done, done ∷ ws, here, refl)
    front done h = inr (done, waiting, waiting ∷ ws, here, refl)

-- A worker that moves by `advance` takes a step, and is not one that stops.
Moves-Working :
    (s : System) (w w' : Worker) (ws : List Worker)
    → Turn w w' s.workers ws
    → advance s.usage w ≡ some w'
    → (t : System) × Working s t × (total serving t.workers ≡ total serving s.workers)
unfolding advance domain_update
Moves-Working s waiting w' ws t e = absurd (none-ne-some w' e)
Moves-Working s stopped w' ws t e = absurd (none-ne-some w' e)
Moves-Working s (polling u) w' ws t e =
    let t' = subst (λ x. Turn (polling u) x s.workers ws) (sym (some-injective _ _ e)) t in
    (
      record s { usage = put s.usage u 0; workers = ws },
      poll 0 t',
      omega (arith, total-Turn serving t'),
    )
Moves-Working s (polled u b) w' ws t e =
    let t' = subst (λ x. Turn (polled u b) x s.workers ws) (sym (some-injective _ _ e)) t in
    (
      record (domain_update (s.domain u) b (s.usage u) s) { workers = ws },
      update t',
      omega (arith, total-Turn serving t'),
    )
Moves-Working s (settled u) w' ws t e =
    let t' = subst (λ x. Turn (settled u) x s.workers ws) (sym (some-injective _ _ e)) t in
    (
      record s { processing = put s.processing u false; workers = ws },
      unset t',
      omega (arith, total-Turn serving t'),
    )
Moves-Working s done w' ws t e =
    let t' = subst (λ x. Turn done x s.workers ws) (sym (some-injective _ _ e)) t in
    (
      record s { queue_proc = s.queue_proc - 1; workers = ws },
      release t',
      omega (arith, total-Turn serving t'),
    )

-- Among idle workers of which one still answers, one waits.
Idle-waiting :
    (ws : List Worker)
    → All Idle ws
    → total serving ws ≢ 0
    → (u : ℕ) → (ws' : List Worker) × Turn waiting (polling u) ws ws'
Idle-waiting [] h n u = absurd (n refl)
Idle-waiting (w ∷ ws) (inl e, hs) n u =
    (polling u ∷ ws, subst (λ x. Turn waiting (polling u) (x ∷ ws) (polling u ∷ ws)) (sym e) here)
Idle-waiting (w ∷ ws) (inr e, hs) n u =
    let (ws', t) = Idle-waiting ws hs (λ z. n (rw e (omega (arith, z)))) u in (w ∷ ws', there t)

-- The workers at rest, with nothing queued.
abbrev pub Drained : System → Type 0
Drained s = (s.queue ≡ []) × All Idle s.workers

Progress : System → Type 0
Progress s =
    Drained s ⊎ ((t : System) × Working s t × (total serving t.workers ≡ total serving s.workers))

-- A state that is not drained has a further step.
Progress-Idle :
    (s : System) (q : List ℕ)
    → IsSized s
    → total serving s.workers ≢ 0
    → All Idle s.workers
    → s.queue ≡ q
    → Progress s
unfolding Progress
Progress-Idle s [] h n idle same = inl (same, idle)
Progress-Idle s (v ∷ q) h n idle same =
    let some_left : s.queue_size ≢ 0 = ground (arith, h.sized, same) in
    let (u, t, e) = pop_ready s h some_left in
    let p = queue_pop-Popped s u t e in
    let (ws, tr) = Idle-waiting s.workers idle n u in
    inr (
      record t { queue_proc = suc t.queue_proc; workers = ws },
      take some_left e tr,
      omega (arith, total-Turn serving tr),
    )

progress : (s : System) → IsSized s → total serving s.workers ≢ 0 → Progress s
unfolding Progress
progress s h n = elim (movable s.usage s.workers) [
  | inl idle ↦ Progress-Idle s s.queue h n idle refl
  | inr (w, w', ws, t, e) ↦ inr (Moves-Working s w w' ws t e)
]

drain_from :
    {s t : System} {n : ℕ} (fuel : ℕ)
    → Runs s n t
    → measure t ≤ fuel
    → IsSized t
    → total serving t.workers ≢ 0
    → (n' : ℕ) × (u : System) × Runs s n' u × Drained u
unfolding Progress
drain_from {s} {t} {n} zero r b h some_serve = elim (progress t h some_serve) [
  | inl d ↦ (n, t, r, d)
  | inr (u, w, e) ↦ absurd (omega (arith, Working-measure w))
]
drain_from {s} {t} {n} (suc fuel) r b h some_serve = elim (progress t h some_serve) [
  | inl d ↦ (n, t, r, d)
  | inr (u, w, e) ↦
      drain_from fuel (more r w) (omega (arith, Working-measure w)) (Working-IsSized w h)
        (λ z. some_serve (sym e ∙ z))
]

distance_le_five : (w : Worker) → distance w ≤ 5
distance_le_five waiting = omega arith
distance_le_five (polling u) = omega arith
distance_le_five (polled u b) = omega arith
distance_le_five (settled u) = omega arith
distance_le_five done = omega arith
distance_le_five stopped = omega arith

total-distance : (ws : List Worker) → total distance ws ≤ 5 * length ws
total-distance [] = omega arith
total-distance (w ∷ ws) = omega (arith, distance_le_five w, total-distance ws)

-- However the workers run on their own, and whatever their polls find, they take at most five steps
-- for each item of the queue and each worker.
pub workers_stop : {s t : System} {n : ℕ} → Runs s n t → n ≤ 5 * (length s.queue + length s.workers)
workers_stop {s} r = omega (arith, Runs-measure r, total-distance s.workers)

-- From every state that the threads reach in which a worker still answers, the workers can go on on
-- their own until the queue is empty and each of them waits or has stopped.
pub workers_drain :
    {s t : System}
    → Starts s
    → Reach s t
    → total serving t.workers ≢ 0
    → (n : ℕ) × (u : System) × Runs t n u × Drained u
workers_drain {s} {t} st r some_serve =
    drain_from (measure t) stay (omega arith) (Reach-IsSized r (Starts-IsSized st)) some_serve

-- In every state that the threads reach in which a worker still answers, the queue is empty with each
-- worker waiting or stopped, or one of the workers can take a step.
pub workers_progress :
    {s t : System}
    → Starts s
    → Reach s t
    → total serving t.workers ≢ 0
    → Drained t ⊎ ((u : System) × Working t u)
unfolding Progress
workers_progress {s} {t} st r some_serve =
    elim (progress t (Reach-IsSized r (Starts-IsSized st)) some_serve) [
      | inl d ↦ inl d
      | inr (v, w, e) ↦ inr (v, w)
    ]
