-- ===== src/Maildir/Written.antt =====
-- maildirquota.c, `doaddquota`: what its calls of `writev` leave in the file.
use vpopmail.Common.{
  ℕ, zero, suc, ◌+◌, ◌-◌, ◌≤◌, ◌<◌, ◌≡◌, refl, sym, ap, ◌∙◌, false, List, [], ◌∷◌, ◌++◌,
  append_assoc, append-nil, some, Bytes, ltb, ◌==◌, length, length-drop, take, drop, All, arith,
  Bool-cases, inl, inr,
}
use mathlib.Core.Option.{some-injective, none-ne-some}
use vpopmail.Maildir.Ledger.{consume, concat, write_loop}

take-drop {ℓ} : {A : Type ℓ} (n : ℕ) (xs : List A) → take n xs ++ drop n xs ≡ xs
take-drop zero xs = refl
take-drop (suc n) [] = refl
take-drop (suc n) (x ∷ xs) = ap (λ r. x ∷ r) (take-drop n xs)

drop-append_short {ℓ} :
    {A : Type ℓ} (n : ℕ) (xs ys : List A) → n ≤ length xs → drop n (xs ++ ys) ≡ drop n xs ++ ys
drop-append_short zero xs ys h = refl
drop-append_short (suc n) [] ys h = absurd (omega arith)
drop-append_short (suc n) (x ∷ xs) ys h = drop-append_short n xs ys (omega arith)

drop-append_long {ℓ} :
    {A : Type ℓ} (n m : ℕ) (xs ys : List A) → n ≡ length xs + m → drop n (xs ++ ys) ≡ drop m ys
drop-append_long n m [] ys h = ap (λ k. drop k ys) (omega (arith, h))
drop-append_long zero m (x ∷ xs) ys h = absurd (omega arith)
drop-append_long (suc n) m (x ∷ xs) ys h = drop-append_long n m xs ys (omega arith)

concat-consume : (bs : List Bytes) (n : ℕ) → concat (consume n bs) ≡ drop n (concat bs)
unfolding consume
concat-consume [] zero = refl
concat-consume [] (suc n) = refl
concat-consume (b ∷ bs) zero = refl
concat-consume (b ∷ bs) (suc n) =
    let some_left : (suc n == 0) ≡ false = ground arith in
    elim (Bool-cases (ltb (suc n) (length b))) [
      | inl h ↦
          rw (consume, some_left, h) (sym (drop-append_short (suc n) b (concat bs) (ground arith)))
      | inr h ↦
          rw (consume, some_left, h)
            (concat-consume bs (suc n - length b)
              ∙ sym (drop-append_long (suc n) (suc n - length b) b (concat bs) (ground arith)))
    ]

-- Whatever the sizes of the pieces in which `writev` takes the buffers, a loop that ends without an
-- error has written each of their bytes once and in order, behind what stood in the file.
pub write_loop-concat :
    (answers : List ℕ) (bs : List Bytes) (file f : Bytes)
    → write_loop answers bs file ≡ some f
    → f ≡ file ++ concat bs
unfolding write_loop
write_loop-concat answers [] file f e = sym (some-injective _ _ e) ∙ sym (append-nil file)
write_loop-concat [] (b ∷ bs) file f e = absurd (none-ne-some f e)
write_loop-concat (zero ∷ answers) (b ∷ bs) file f e = absurd (none-ne-some f e)
write_loop-concat (suc n ∷ answers) (b ∷ bs) file f e =
    write_loop-concat answers (consume (suc n) (b ∷ bs)) (file ++ take (suc n) (concat (b ∷ bs))) f
      e
    ∙ append_assoc file _ _
    ∙ ap (λ x. file ++ x)
        (ap (λ x. take (suc n) (concat (b ∷ bs)) ++ x) (concat-consume (b ∷ bs) (suc n))
          ∙ take-drop (suc n) (concat (b ∷ bs)))

-- The bytes and the buffers that are left.
abbrev pub work : List Bytes → ℕ
work [] = 0
work (b ∷ bs) = suc (length b + work bs)

work-consume : (bs : List Bytes) (n : ℕ) → work (consume n bs) ≤ work bs
unfolding consume
work-consume [] n = omega arith
work-consume (b ∷ bs) n = ground (arith, length-drop n b, work-consume bs (n - length b))

work-consume_less :
    (b : Bytes) (bs : List Bytes) (n : ℕ) → work (consume (suc n) (b ∷ bs)) < work (b ∷ bs)
unfolding consume
work-consume_less b bs n = ground (arith, length-drop (suc n) b, work-consume bs (suc n - length b))

-- The loop ends without an error once every call writes a byte at least and there are enough of them.
pub write_loop_ends :
    (answers : List ℕ) (bs : List Bytes) (file : Bytes)
    → All (λ n. 0 < n) answers
    → work bs ≤ length answers
    → (f : Bytes) × (write_loop answers bs file ≡ some f)
unfolding write_loop
write_loop_ends answers [] file h w = (file, refl)
write_loop_ends [] (b ∷ bs) file h w = absurd (omega arith)
write_loop_ends (zero ∷ answers) (b ∷ bs) file (h, hs) w = absurd (omega arith)
write_loop_ends (suc n ∷ answers) (b ∷ bs) file (h, hs) w =
    write_loop_ends answers (consume (suc n) (b ∷ bs)) (file ++ take (suc n) (concat (b ∷ bs))) hs
      (omega (arith, work-consume_less b bs n))
