-- ===== src/Usage/Grow.antt =====
-- vusaged/grow.c: a buffer that grows. `text` are the bytes in use; behind them the code keeps a
-- terminator, for which the buffer has one byte more than `size`.
use vpopmail.Common.{
  ℕ, ◌+◌, ◌-◌, ◌≤◌, ◌≡◌, Bool, true, false, [], ◌∷◌, ◌++◌, Option, none, some, Bytes, ltb, ◌==◌,
  if◌then◌else◌, length, drop, arith, length-append, length-drop, ◌<◌, refl, ap, sym, ◌∙◌,
}

pub record Grow : Type 0 where
  pub text : Bytes
  pub size : ℕ
  pub grow : ℕ

-- The branch of `grow_init` without a buffer of the caller's: GROW_BUFFER_SIZE and GROW_BUFFER_ADD are
-- 2048. The Boolean is whether `malloc` succeeds.
unfoldable pub init : Bool → ℕ → Option Grow
init allocates size =
    if allocates
    then some (record { text = []; size = (if size == 0 then 2048 else size); grow = 2048 })
    else none

-- How much is added to the size.
abbrev pub addum : Grow → ℕ → ℕ
addum g bytes =
    if ltb g.grow (length g.text + bytes - g.size)
    then length g.text + bytes - g.size + g.grow + 1
    else g.grow

-- `grow_inject`; `none` is the answer 0, where the buffer stays as it was.
unfoldable pub inject : Bool → Bytes → Grow → Option Grow
inject allocates new g =
    if ltb g.size (length g.text + length new)
    then (if allocates
        then some (record g { text = g.text ++ new; size = g.size + addum g (length new) })
        else none)
    else some (record g { text = g.text ++ new })

-- `grow_cut`, with `grow_restart` where all is cut.
unfoldable pub cut : ℕ → Grow → Option Grow
cut len g =
    if ltb (length g.text) len
    then none
    else if len == length g.text
    then some (record g { text = [] })
    else some (record g { text = drop len g.text })

-- The bytes in use fit.
abbrev pub IsGrow : Grow → Type 0
IsGrow g = length g.text ≤ g.size

enough :
    (need size grow : ℕ)
    → size < need
    → need ≤ size + (if ltb grow (need - size) then need - size + grow + 1 else grow)
enough need size grow h = ground arith

grown : Bytes → Grow → Grow
grown new g = record g { text = g.text ++ new; size = g.size + addum g (length new) }

filled : Bytes → Grow → Grow
filled new g = record g { text = g.text ++ new }

either_way :
    (new : Bytes) (g : Grow) (b : Bool)
    → ltb g.size (length g.text + length new) ≡ b
    → (h : Grow) × ((if b then some (grown new g) else some (filled new g)) ≡ some h)
      × (h.text ≡ g.text ++ new)
      × IsGrow h
unfolding grown filled
either_way new g true e =
    let n = length-append g.text new in
    let room = enough (length g.text + length new) g.size g.grow (ground (arith, e)) in
    (grown new g, refl, refl, omega (arith, n, room))
either_way new g false e =
    let n = length-append g.text new in
    let room : length g.text + length new ≤ g.size = ground (arith, e) in
    (filled new g, refl, refl, omega (arith, n, room))

-- Adding to a buffer in which the bytes fit, if memory can be had, puts the new bytes behind the old
-- ones, and they fit again; without memory it does the same wherever the new bytes fitted before.
pub inject_lem :
    (new : Bytes) (g : Grow)
    → IsGrow g
    → ((h : Grow) × (inject true new g ≡ some h) × (h.text ≡ g.text ++ new) × IsGrow h)
      × (length g.text + length new ≤ g.size → inject false new g ≡ inject true new g)
unfolding inject grown filled
inject_lem new g h = (
  either_way new g (ltb g.size (length g.text + length new)) refl,
  λ k.
      let room : ltb g.size (length g.text + length new) ≡ false = ground (arith, k) in
      rw room refl,
)

drop_all : (xs : Bytes) → drop (length xs) xs ≡ []
drop_all [] = refl
drop_all (x ∷ xs) = drop_all xs

cut_down : ℕ → Grow → Grow
cut_down len g = record g { text = drop len g.text }

restarts :
    (len : ℕ) (g : Grow) (b : Bool)
    → (len == length g.text) ≡ b
    → (if b then some (record g { text = [] }) else some (cut_down len g)) ≡ some (cut_down len g)
unfolding cut_down
restarts len g false e = refl
restarts len g true e =
    let all : length g.text ≡ len = ground (arith, e) in
    ap (λ t. some (record g { text = t })) (sym (drop_all g.text) ∙ ap (λ n. drop n g.text) all)

-- Cutting takes that many bytes off the front of a buffer in which the bytes fit, and they still fit;
-- it is refused exactly where there are fewer.
pub cut_lem :
    (len : ℕ) (g : Grow)
    → IsGrow g
    → (len ≤ length g.text
        → (h : Grow) × (cut len g ≡ some h) × (h.text ≡ drop len g.text) × IsGrow h)
      × (length g.text < len → cut len g ≡ none)
unfolding cut cut_down
cut_lem len g h = (
  λ k.
      let room : ltb (length g.text) len ≡ false = ground (arith, k) in
      let n = length-drop len g.text in
      (
        cut_down len g,
        rw room (restarts len g (len == length g.text) refl),
        refl,
        omega (arith, n, h),
      ),
  λ k. let few : ltb (length g.text) len ≡ true = ground (arith, k) in rw few refl,
)
