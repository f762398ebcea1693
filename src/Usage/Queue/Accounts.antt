-- ===== src/Usage/Queue/Accounts.antt =====
-- vusaged/user.c, `user_poll` and `user_verify`: the usage of a domain against that of its users, while
-- the threads run.
use vpopmail.Common.{
  ℕ, ◌+◌, ◌-◌, ◌^◌, ◌≤◌, ◌<◌, ◌≡◌, refl, ap, ◌∙◌, true, false, List, [], ◌∷◌, ◌==◌, if◌then◌else◌,
  arith, All,
}
use vpopmail.Usage.Queue.{
  Worker, waiting, polling, polled, settled, done, stopped, resting, holding, System, put, mod64,
  queue_push, domain_update, user_load, user_lost, remove,
}
use vpopmail.Usage.Queue.Steps.{
  count, Turn, here, there, AllWaiting, Working, take, poll, update, unset, release, stop_waiting,
  stop_done, Step, work, load, first, claim, lose, full, offer, Reach, begin, next, Starts,
}
use vpopmail.Usage.Queue.Count.{owns, total, total-Turn, total-member, queue_pop-Popped}
use vpopmail.Usage.Queue.Invariant.{IsOwned, taken, Reach-IsOwned, Starts-IsOwned}

-- The sum over the users of a domain.
abbrev pub sum_of : (ℕ → ℕ) → (ℕ → ℕ) → ℕ → List ℕ → ℕ
sum_of domain amount d [] = 0
sum_of domain amount d (u ∷ us) =
    (if domain u == d then amount u else 0) + sum_of domain amount d us

-- Whether a worker has polled the user and not yet updated the domain.
abbrev pub unsettled : ℕ → Worker → ℕ
unsettled u (polled v before) = if u == v then 1 else 0
unsettled u _ = 0

unsettled-owns : (u : ℕ) (w : Worker) → unsettled u w ≤ owns u w
unsettled-owns u waiting = omega arith
unsettled-owns u (polling v) = ground arith
unsettled-owns u (polled v b) = omega arith
unsettled-owns u (settled v) = ground arith
unsettled-owns u done = omega arith
unsettled-owns u stopped = omega arith

total-unsettled : (u : ℕ) (ws : List Worker) → total (unsettled u) ws ≤ total (owns u) ws
total-unsettled u [] = omega arith
total-unsettled u (w ∷ ws) = omega (arith, unsettled-owns u w, total-unsettled u ws)

sum_of-absent :
    (domain amount : ℕ → ℕ) (d u x y : ℕ) (us : List ℕ)
    → count u us ≡ 0
    → sum_of (put domain u y) (put amount u x) d us ≡ sum_of domain amount d us
sum_of-absent domain amount d u x y [] h = refl
sum_of-absent domain amount d u x y (v ∷ us) h =
    ground (arith, sum_of-absent domain amount d u x y us)

sum_of-put_absent :
    (domain amount : ℕ → ℕ) (d u x : ℕ) (us : List ℕ)
    → count u us ≡ 0
    → sum_of domain (put amount u x) d us ≡ sum_of domain amount d us
sum_of-put_absent domain amount d u x [] h = refl
sum_of-put_absent domain amount d u x (v ∷ us) h =
    ground (arith, sum_of-put_absent domain amount d u x us)

sum_of-put :
    (domain amount : ℕ → ℕ) (d u x : ℕ) (us : List ℕ)
    → count u us ≡ 1
    → sum_of domain (put amount u x) d us + (if domain u == d then amount u else 0)
      ≡ sum_of domain amount d us + (if domain u == d then x else 0)
sum_of-put domain amount d u x [] h = absurd (omega arith)
sum_of-put domain amount d u x (v ∷ us) h =
    ground (arith, sum_of-put domain amount d u x us, sum_of-put_absent domain amount d u x us)

sum_of-remove :
    (domain amount : ℕ → ℕ) (d u : ℕ) (us : List ℕ)
    → count u us ≡ 1
    → sum_of domain amount d (remove u us) + (if domain u == d then amount u else 0)
      ≡ sum_of domain amount d us
sum_of-remove domain amount d u [] h = absurd (omega arith)
sum_of-remove domain amount d u (v ∷ us) h = ground (arith, sum_of-remove domain amount d u us)

sum_of-agree :
    (domain f g : ℕ → ℕ) (d : ℕ) (us : List ℕ)
    → ((u : ℕ) → f u ≡ g u)
    → sum_of domain f d us ≡ sum_of domain g d us
sum_of-agree domain f g d [] h = refl
sum_of-agree domain f g d (u ∷ us) h = ground (arith, h u, sum_of-agree domain f g d us h)

-- A worker that has polled a user holds the amount that is recorded for it.
abbrev pub Holds : (ℕ → ℕ) → Worker → Type 0
Holds recorded (polled u before) = recorded u ≡ before
Holds recorded _ = Unit

All-Turn :
    (P : Worker → Type 0) {w w' : Worker} {ws ws' : List Worker}
    → Turn w w' ws ws'
    → P w'
    → All P ws
    → All P ws'
All-Turn P here p (h, hs) = (p, hs)
All-Turn P (there t) p (h, hs) = (h, All-Turn P t p hs)

Turn-All :
    (P : Worker → Type 0) {w w' : Worker} {ws ws' : List Worker} → Turn w w' ws ws' → All P ws → P w
Turn-All P here (h, hs) = h
Turn-All P (there t) (h, hs) = Turn-All P t hs

Holds-put :
    (recorded : ℕ → ℕ) (u x : ℕ) (ws : List Worker)
    → total (unsettled u) ws ≡ 0
    → All (Holds recorded) ws
    → All (Holds (put recorded u x)) ws
Holds-put recorded u x [] e h = tt
Holds-put recorded u x (w ∷ ws) e (h, hs) =
    (one w h (omega arith), Holds-put recorded u x ws (omega arith) hs)
  where
    one : (w : Worker) → Holds recorded w → unsettled u w ≡ 0 → Holds (put recorded u x) w
    one (polled v b) h e = ground arith
    one waiting h e = tt
    one (polling v) h e = tt
    one (settled v) h e = tt
    one done h e = tt
    one stopped h e = tt

-- What the domains have recorded of each user: its usage, or what it was before a poll that is not
-- settled yet. The sum over the users of a domain is the usage of the domain.
pub record Books (domain_usage domain usage : ℕ → ℕ) (userlist : List ℕ) (workers : List Worker)
    : Type 0 where
  pub recorded : ℕ → ℕ
  pub sums : (d : ℕ) → mod64 (domain_usage d) ≡ mod64 (sum_of domain recorded d userlist)
  pub held_back : All (Holds recorded) workers
  pub up_to_date : (u : ℕ) → total (unsettled u) workers ≡ 0 → recorded u ≡ usage u

abbrev pub Accounts : System → Type 0
Accounts s = Books s.domain_usage s.domain s.usage s.userlist s.workers

-- Modulo 2 ^ 64, the old amount is taken away and the new one added.
mod64-shift :
    (a b c x y : ℕ)
    → mod64 a ≡ mod64 x
    → y + b ≡ x + c
    → mod64 (mod64 (a + (2 ^ 64 - mod64 b) + c)) ≡ mod64 y
mod64-shift a b c x y h e = omega arith

-- A worker in front of its poll counts among the owners, and not among the unsettled.
Turn-polling :
    {u : ℕ} {w' : Worker} {ws ws' : List Worker}
    → Turn (polling u) w' ws ws'
    → total (unsettled u) ws < total (owns u) ws
Turn-polling {u} (here {ws}) = ground (arith, total-unsettled u ws)
Turn-polling {u} (there {v} t) = ground (arith, Turn-polling t, unsettled-owns u v)

-- A step of one worker that leaves the amounts alone.
Accounts-Turn :
    (s : System) {w w' : Worker} {ws : List Worker}
    → Turn w w' s.workers ws
    → ((r : ℕ → ℕ) → Holds r w')
    → ((v : ℕ) → unsettled v w ≡ unsettled v w')
    → Accounts s
    → Accounts (record s { workers = ws })
Accounts-Turn s {w} {w'} {ws} tr h e a = record {
  recorded = a.recorded;
  sums = a.sums;
  held_back = All-Turn (Holds a.recorded) tr (h a.recorded) a.held_back;
  up_to_date = λ u z. a.up_to_date u (omega (arith, total-Turn (unsettled u) tr, e u));
}

Accounts-poll :
    (s : System) {u : ℕ} (after : ℕ) {ws : List Worker}
    → Turn (polling u) (polled u (s.usage u)) s.workers ws
    → IsOwned u s
    → Accounts s
    → Accounts (record s { usage = put s.usage u after; workers = ws })
Accounts-poll s {u} after {ws} tr o a = record {
  recorded = a.recorded;
  sums = a.sums;
  held_back =
      All-Turn (Holds a.recorded) tr
        (a.up_to_date u (ground (arith, Turn-polling tr, o.flagged, o.listed, o.once))) a.held_back;
  up_to_date = λ v z. ground (arith, total-Turn (unsettled v) tr, a.up_to_date v);
}

Accounts-update :
    (s : System) {u before : ℕ} {ws : List Worker}
    → Turn (polled u before) (settled u) s.workers ws
    → IsOwned u s
    → Accounts s
    → Accounts (record (domain_update (s.domain u) before (s.usage u) s) { workers = ws })
unfolding domain_update
Accounts-update s {u} {before} {ws} tr o a =
    let one : count u s.userlist ≡ 1 = ground (arith, o.listed, o.once, total-member (owns u) tr) in
    let b : a.recorded u ≡ before = Turn-All (Holds a.recorded) tr a.held_back in
    record {
      recorded = put a.recorded u (s.usage u);
      sums = λ d.
          ground
            (arith, a.sums d, sum_of-put s.domain a.recorded d u (s.usage u) s.userlist one, b);
      held_back =
          Holds-put a.recorded u (s.usage u) ws
            (ground
              (arith, o.listed, o.once, total-Turn (unsettled u) tr, total-unsettled u s.workers))
            (All-Turn (Holds a.recorded) tr tt a.held_back);
      up_to_date = λ v z. ground (arith, total-Turn (unsettled v) tr, a.up_to_date v);
    }

Accounts-lose :
    (s : System) {u : ℕ}
    → s.controller ≡ holding u
    → IsOwned u s
    → Accounts s
    → Accounts (record (user_lost u s) { controller = resting })
unfolding domain_update user_lost
Accounts-lose s {u} c o a =
    let one : count u s.userlist ≡ 1 = ground (arith, c, o.listed, o.once) in
    let idle : total (unsettled u) s.workers ≡ 0 =
      ground (arith, c, o.listed, o.once, total-unsettled u s.workers) in
    record {
      recorded = a.recorded;
      sums = λ d. ground (
        arith,
        a.sums d,
        sum_of-remove s.domain a.recorded d u s.userlist one,
        a.up_to_date u idle,
      );
      held_back = a.held_back;
      up_to_date = a.up_to_date;
    }

Accounts-load :
    (s : System) (u d : ℕ)
    → count u s.userlist ≡ 0
    → IsOwned u s
    → Accounts s
    → Accounts (user_load u d s)
unfolding user_load
Accounts-load s u d c o a =
    let idle : total (unsettled u) s.workers ≡ 0 =
      omega (arith, o.listed, c, total-unsettled u s.workers) in
    record {
      recorded = put a.recorded u 0;
      sums = λ e. ground (arith, a.sums e, sum_of-absent s.domain a.recorded e u 0 d s.userlist c);
      held_back = Holds-put a.recorded u 0 s.workers idle a.held_back;
      up_to_date = λ v z. ground (arith, a.up_to_date v);
    }

Working-Accounts : {s t : System} → Working s t → ((v : ℕ) → IsOwned v s) → Accounts s → Accounts t
Working-Accounts {s} (take {u} {t} n e tr) o a =
    let p = queue_pop-Popped s u t e in
    taken Accounts p (Accounts-Turn s tr (λ r. tt) (λ v. refl) a)
Working-Accounts {s} (poll {u} after tr) o a = Accounts-poll s after tr (o u) a
Working-Accounts {s} (update {u} tr) o a = Accounts-update s tr (o u) a
Working-Accounts {s} (unset tr) o a = Accounts-Turn s tr (λ r. tt) (λ v. refl) a
Working-Accounts {s} (release tr) o a = Accounts-Turn s tr (λ r. tt) (λ v. refl) a
Working-Accounts {s} (stop_waiting tr) o a = Accounts-Turn s tr (λ r. tt) (λ v. refl) a
Working-Accounts {s} (stop_done tr) o a = Accounts-Turn s tr (λ r. tt) (λ v. refl) a

Step-Accounts : {s t : System} → Step s t → ((v : ℕ) → IsOwned v s) → Accounts s → Accounts t
unfolding queue_push
Step-Accounts (work w) o a = Working-Accounts w o a
Step-Accounts {s} (load u d r n) o a = Accounts-load s u d n (o u) a
Step-Accounts (first u true r c b p) o a = a
Step-Accounts (first u false r c b p) o a = a
Step-Accounts (claim u r c p) o a = a
Step-Accounts {s} (lose u c) o a = Accounts-lose s c (o u) a
Step-Accounts (full u c b) o a = a
Step-Accounts (offer u true c b) o a = a
Step-Accounts (offer u false c b) o a = a

AllWaiting-Holds : (recorded : ℕ → ℕ) (ws : List Worker) → AllWaiting ws → All (Holds recorded) ws
AllWaiting-Holds recorded [] h = tt
AllWaiting-Holds recorded (w ∷ ws) (e, h) = (rw e tt, AllWaiting-Holds recorded ws h)

Starts-Accounts : {s : System} → Starts s → Accounts s
Starts-Accounts {s} st = record {
  recorded = s.usage;
  sums = λ d. rw (st.no_users, st.no_usage d) refl;
  held_back = AllWaiting-Holds s.usage s.workers st.all_waiting;
  up_to_date = λ u z. refl;
}

Reach-Accounts : {s t : System} → Reach s t → Starts s → Accounts t
Reach-Accounts begin st = Starts-Accounts st
Reach-Accounts (next r step) st =
    Step-Accounts step (λ v. Reach-IsOwned v r (Starts-IsOwned v st)) (Reach-Accounts r st)

-- In every state that the threads reach in which no worker stands between the poll of a user and the
-- update of its domain, the usage of each domain is the sum of the usages of its users, modulo 2 ^ 64.
pub domain_usage_lem :
    {s t : System}
    → Starts s
    → Reach s t
    → ((u : ℕ) → total (unsettled u) t.workers ≡ 0)
    → (d : ℕ) → mod64 (t.domain_usage d) ≡ mod64 (sum_of t.domain t.usage d t.userlist)
domain_usage_lem {t} st r idle d =
    let a = Reach-Accounts r st in
    a.sums d
    ∙ ap mod64
        (sum_of-agree t.domain a.recorded t.usage d t.userlist (λ u. a.up_to_date u (idle u)))
