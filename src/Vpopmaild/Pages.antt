-- ===== src/Vpopmaild/Pages.antt =====
-- vpopmaild.c: the pages of the listings, and the page that `find_domain` answers.
use vpopmail.Common.{
  ℕ, zero, suc, ◌+◌, ◌-◌, ◌*◌, ◌^◌, ◌/◌, ◌<◌, ◌≤◌, ◌≡◌, refl, ap, sym, ◌∙◌, List, [], ◌∷◌, ◌++◌,
  some, Bytes, ltb, ltb→lt, leb, arith, take, drop, length, equal, equal_iff, append_assoc,
  Bool-cases, inl, inr,
}
use native.Mathlib.Nat.{div-mul-le_self, lt-div-mul-add}
use vpopmail.Vpopmaild.{DomainEntry}
use vpopmail.Vpopmaild.Accounts.{named, bounds_of, paged}
use vpopmail.Vpopmaild.Domains.{entry_lines, find_entry, page_number}

-- The lines of every entry.
abbrev pub each {ℓ} : {A : Type ℓ} → (A → List Bytes) → List A → List Bytes
each f [] = []
each f (x ∷ xs) = f x ++ each f xs

module _ {A : Type 0} (shown : A → List Bytes) where
  take-nil : (n : ℕ) → take {A = A} n [] ≡ []
  take-nil zero = refl
  take-nil (suc n) = refl

  -- Inside the page, and in front of it.
  paged_inside :
      (start end count : ℕ) (xs : List A)
      → start ≤ count
      → 0 < end
      → paged (start, end) shown [] count xs ≡ each shown (take (end - count) xs)
  unfolding paged
  paged_inside start end count [] h k = ap (each shown) (sym (take-nil (end - count)))
  paged_inside start end count (x ∷ xs) h k = elim (Bool-cases (ltb count end)) [
    | inl more ↦
        let width : end - count ≡ suc (end - suc count) = omega (arith, ltb→lt count end more) in
        rw (width) (ground (arith, paged_inside start end (suc count) xs))
    | inr no_more ↦ let width : end - count ≡ 0 = ground arith in rw (width) (ground arith)
  ]

  paged_before :
      (d start end count : ℕ) (xs : List A)
      → start ≡ count + d
      → start < end
      → paged (start, end) shown [] count xs ≡ paged (start, end) shown [] start (drop d xs)
  unfolding paged
  paged_before zero start end count xs e h = rw e (ground arith)
  paged_before (suc d) start end count [] e h = refl
  paged_before (suc d) start end count (x ∷ xs) e h =
      ground (arith, paged_before d start end (suc count) xs)

width : (p n : ℕ) → 0 < p → p * n ≡ (p - 1) * n + n
width zero n h = absurd (omega arith)
width (suc p) n h = let e : suc p - 1 ≡ p = omega arith in rw e (grind arith)

bounds : (p n : ℕ) → 0 < p → 0 < n → bounds_of p n ≡ ((p - 1) * n, p * n)
bounds p n h k = ground arith

-- Page `p` of a listing with `n` entries a page shows the `n` entries behind the first `(p - 1) * n`,
-- in their order, where `p` and `n` are above 0 and `p * n` fits an `int`. The lines are those of
-- `list_domains` and `list_lists`, which send none for an entry outside of the page.
pub paged_lem :
    {A : Type 0} (shown : A → List Bytes) (p n : ℕ) (xs : List A)
    → 0 < p
    → 0 < n
    → p * n < 2 ^ 31
    → paged (bounds_of p n) shown [] 0 xs ≡ each shown (take n (drop ((p - 1) * n) xs))
paged_lem shown p n xs hp hn fits =
    let start = (p - 1) * n in
    let end : p * n ≡ start + n = width p n hp in
    let inside : p * n - start ≡ n = omega (arith, end) in
    ap (λ b. paged b shown [] 0 xs) (bounds p n hp hn)
    ∙ paged_before shown start start (p * n) 0 xs (omega arith) (omega (arith, end))
    ∙ paged_inside shown start (p * n) start (drop start xs) (omega arith) (omega (arith, end))
    ∙ ap (λ k. each shown (take k (drop start xs))) inside

-- The entry that `find_domain` looks for, and its place.
record Place (domain : Bytes) (count i : ℕ) (es : List DomainEntry) : Type 0 where
  before : List DomainEntry
  entry : DomainEntry
  behind : List DomainEntry
  split : es ≡ before ++ (entry ∷ behind)
  place : i ≡ count + length before
  same : entry.domain ≡ domain

find_entry-Place :
    (domain : Bytes) (count i : ℕ) (es : List DomainEntry)
    → find_entry domain count es ≡ some i
    → Place domain count i es
unfolding find_entry
find_entry-Place domain count i [] h = absurd (ground arith)
find_entry-Place domain count i (e ∷ es) h = elim (Bool-cases (equal domain e.domain)) [
  | inl found ↦ record {
    before = [];
    entry = e;
    behind = es;
    split = refl;
    place = ground arith;
    same = sym ((equal_iff domain e.domain).0 found);
  }
  | inr other ↦
      let p = find_entry-Place domain (suc count) i es (ground arith) in
      record {
        before = e ∷ p.before;
        entry = p.entry;
        behind = p.behind;
        split = ap (◌∷◌ e) p.split;
        place = omega (arith, p.place);
        same = p.same;
      }
]

-- An entry of the page has its lines in the listing.
paged_at :
    {A : Type 0} (shown : A → List Bytes) (start end count : ℕ) (before : List A) (x : A)
    (behind : List A)
    → start ≤ count + length before
    → count + length before < end
    → (front : List Bytes) × (back : List Bytes) × (paged
          (start, end)
          shown
          []
          count
          (before ++ (x ∷ behind))
        ≡ front ++ (shown x ++ back))
unfolding paged
paged_at shown start end count [] x behind h k =
    ([], paged (start, end) shown [] (suc count) behind, ground arith)
paged_at shown start end count (y ∷ ys) x behind h k =
    let (front, back, e) =
      paged_at shown start end (suc count) ys x behind (omega arith) (omega arith) in
    elim (Bool-cases (leb start count)) [
      | inl on ↦ (
        shown y ++ front,
        back,
        ground (arith, e, append_assoc (shown y) front (shown x ++ back)),
      )
      | inr off ↦ (front, back, ground (arith, e))
    ]

-- The place of an entry lies on the page that `find_domain` computes.
page_start : (n i : ℕ) → 0 < n → (page_number n i - 1) * n ≤ i
page_start zero i h = absurd (omega arith)
page_start (suc n) i h =
    let e : i / suc n + 1 - 1 ≡ i / suc n = omega arith in rw e (div-mul-le_self i (suc n))

page_pos : (n i : ℕ) → 0 < page_number n i
page_pos zero i = omega arith
page_pos (suc n) i = omega arith

page_end : (n i : ℕ) → 0 < n → i < page_number n i * n
page_end zero i h = absurd (omega arith)
page_end (suc n) i h =
    let e : (i / suc n + 1) * suc n ≡ i / suc n * suc n + suc n = grind arith in
    rw e (lt-div-mul-add h)

-- For a number of entries a page above 0, the page that `find_domain` answers for a domain is the page
-- of `list_domains` that has a line for it.
pub find_entry-paged :
    (domain : Bytes) (n i : ℕ) (es : List DomainEntry)
    → 0 < n
    → find_entry domain 0 es ≡ some i
    → (real : Bytes) × (front : List Bytes) × (back : List Bytes) × (paged
          (bounds_of (page_number n i) n)
          entry_lines
          []
          0
          es
        ≡ front ++ (named real domain ∷ back))
find_entry-paged domain n i es h found =
    let p = find_entry-Place domain 0 i es found in
    let (front, back, e) =
      paged_at entry_lines ((page_number n i - 1) * n) (page_number n i * n) 0 p.before p.entry
        p.behind (rw (← p.place) (page_start n i h)) (rw (← p.place) (page_end n i h)) in
    let line = ap (λ d. front ++ (named p.entry.realdomain d ∷ back)) p.same in
    (
      p.entry.realdomain,
      front,
      back,
      ap (λ b. paged b entry_lines [] 0 es) (bounds (page_number n i) n (page_pos n i) h)
          ∙ ap (paged ((page_number n i - 1) * n, page_number n i * n) entry_lines [] 0) p.split
          ∙ e
          ∙ line,
    )
