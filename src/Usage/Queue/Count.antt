-- ===== src/Usage/Queue/Count.antt =====
-- Who has a user: the items of the queue, the workers and the controller, counted.
use vpopmail.Common.{
  ℕ, ◌+◌, ◌-◌, ◌≤◌, ◌≡◌, refl, sym, ap, ◌∙◌, Bool, true, false, List, [], ◌∷◌, some, ◌==◌,
  if◌then◌else◌, arith,
}
use mathlib.Core.Option.{some-injective, none-ne-some}
use vpopmail.Usage.Queue.{
  Worker, waiting, polling, polled, settled, done, stopped, Controller, resting, holding, System,
  queue_pop, popped, remove,
}
use vpopmail.Usage.Queue.Steps.{count, Turn, here, there, AllWaiting}

abbrev pub bit : Bool → ℕ
bit true = 1
bit false = 0

-- Whether a worker has the user `u`, with its flag `processing` still set.
abbrev pub owns : ℕ → Worker → ℕ
owns u (polling v) = if u == v then 1 else 0
owns u (polled v before) = if u == v then 1 else 0
owns u (settled v) = if u == v then 1 else 0
owns u _ = 0

abbrev pub held : ℕ → Controller → ℕ
held u resting = 0
held u (holding v) = if u == v then 1 else 0

-- Whether a worker is counted in `queue_proc`.
abbrev pub counted : Worker → ℕ
counted (polling v) = 1
counted (polled v before) = 1
counted (settled v) = 1
counted done = 1
counted waiting = 0
counted stopped = 0

abbrev pub total : (Worker → ℕ) → List Worker → ℕ
total f [] = 0
total f (w ∷ ws) = f w + total f ws

-- How often the user `u` is queued, polled or claimed.
abbrev pub owners : ℕ → System → ℕ
owners u s = count u s.queue + total (owns u) s.workers + held u s.controller

pub total-Turn :
    (f : Worker → ℕ) {w w' : Worker} {ws ws' : List Worker}
    → Turn w w' ws ws'
    → total f ws + f w' ≡ total f ws' + f w
total-Turn f here = omega arith
total-Turn f (there t) = omega (arith, total-Turn f t)

pub total-member :
    (f : Worker → ℕ) {w w' : Worker} {ws ws' : List Worker} → Turn w w' ws ws' → f w ≤ total f ws
total-member f here = omega arith
total-member f (there t) = omega (arith, total-member f t)

pub total-AllWaiting :
    (f : Worker → ℕ) (ws : List Worker) → f waiting ≡ 0 → AllWaiting ws → total f ws ≡ 0
total-AllWaiting f [] z h = refl
total-AllWaiting f (w ∷ ws) z (e, h) = rw e (omega (arith, total-AllWaiting f ws z h))

pub count-remove :
    (u v : ℕ) (us : List ℕ) → count v (remove u us) ≡ count v us - (if u == v then 1 else 0)
count-remove u v [] = ground arith
count-remove u v (w ∷ us) = ground (arith, count-remove u v us)

-- What is popped stood in the queue, on top.
pub record Popped (s : System) (u : ℕ) (t : System) : Type 0 where
  pub rest : List ℕ
  pub top : s.queue ≡ u ∷ rest
  pub after : t ≡ record s { queue = rest; queue_size = s.queue_size - 1 }

popped-Popped :
    (s : System) (q : List ℕ) (u : ℕ) (t : System)
    → s.queue ≡ q
    → popped q s ≡ some (u, t)
    → Popped s u t
unfolding popped
popped-Popped s [] u t h e = absurd (none-ne-some (u, t) e)
popped-Popped s (v ∷ vs) u t h e =
    let same = some-injective _ _ e in
    record {
      rest = vs;
      top = h ∙ ap (λ x. x ∷ vs) (ap (λ p. p.0) same);
      after = sym (ap (λ p. p.1) same);
    }

pub queue_pop-Popped : (s : System) (u : ℕ) (t : System) → queue_pop s ≡ some (u, t) → Popped s u t
unfolding queue_pop
queue_pop-Popped s u t e = popped-Popped s s.queue u t refl e
