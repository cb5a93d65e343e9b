-- ===== src/Deque.antt =====
-- `collections.deque(maxlen=n)`, oldest entry first: an append past the limit drops the oldest.
use mathlib.Core.List
use mathlib.Core.List.{reverse-cons}
use ghost_meter.Prelude.{
  ℕ, zero, suc, ◌-◌, ◌≤◌, ◌≡◌, refl, ap, sym, ◌∙◌, inl, inr, List, [], ◌∷◌, ◌++◌, reverse, arith,
  length, take, drop, length-append, take-take-suc, length-drop, leb, Bool-cases,
}

module _ {ℓ} {A : Type ℓ} where
  unfoldable pub append : ℕ → List A → A → List A
  append maxlen buf x = let grown = buf ++ x ∷ [] in drop (length grown - maxlen) grown

  length-reverse : (buf : List A) → length (reverse buf) ≡ length buf
  length-reverse [] = refl
  length-reverse (e ∷ buf) =
      rw (reverse-cons e buf, length-append (reverse buf) (e ∷ []))
        (omega (arith, length-reverse buf))

  take_all : (n : ℕ) (xs : List A) → length xs ≤ n → take n xs ≡ xs
  take_all zero [] h = refl
  take_all zero (x ∷ xs) h = absurd (omega arith)
  take_all (suc n) [] h = refl
  take_all (suc n) (x ∷ xs) h = ap (◌∷◌ x) (take_all n xs (omega arith))

  take-append_short : (n : ℕ) (xs ys : List A) → n ≤ length xs → take n (xs ++ ys) ≡ take n xs
  take-append_short zero xs ys h = refl
  take-append_short (suc n) [] ys h = absurd (omega arith)
  take-append_short (suc n) (x ∷ xs) ys h = ap (◌∷◌ x) (take-append_short n xs ys (omega arith))

  -- What an eviction keeps is the front of the newest-first reading.
  reverse-drop : (n : ℕ) (xs : List A) → reverse (drop (length xs - n) xs) ≡ take n (reverse xs)
  reverse-drop n [] = rw none_over (sym (take_all n [] (omega arith)))
    where
      none_over : length {A = A} [] - n ≡ 0
      none_over = omega arith
  reverse-drop n (x ∷ xs) = elim (Bool-cases (leb (suc (length xs)) n)) [
    | inl short ↦
        let all : length (x ∷ xs) - n ≡ 0 = ground arith in
        rw all (sym (take_all n _ (ground (arith, length-reverse (x ∷ xs)))))
    | inr long ↦
        let over : length (x ∷ xs) - n ≡ suc (length xs - n) = ground arith in
        rw (over, reverse-cons x xs)
          (reverse-drop n xs
            ∙ sym (take-append_short n (reverse xs) (x ∷ []) (ground (arith, length-reverse xs))))
  ]

  -- Newest first, an append puts the entry in front and keeps `maxlen` entries.
  pub reverse-append :
      (maxlen : ℕ) (buf seen : List A) (x : A)
      → reverse buf ≡ take maxlen seen
      → reverse (append maxlen buf x) ≡ take maxlen (x ∷ seen)
  unfolding append
  reverse-append maxlen buf seen x h =
      rw (reverse-drop maxlen (buf ++ x ∷ []), List.reverse-append buf (x ∷ []), h)
        (take_again maxlen)
    where
      take_again : (n : ℕ) → take n (x ∷ take n seen) ≡ take n (x ∷ seen)
      take_again zero = refl
      take_again (suc n) = ap (◌∷◌ x) (take-take-suc n seen)

  pub length-append_le : (maxlen : ℕ) (buf : List A) (x : A) → length (append maxlen buf x) ≤ maxlen
  unfolding append
  length-append_le maxlen buf x =
      ground (arith, length-drop (length (buf ++ x ∷ []) - maxlen) (buf ++ x ∷ []))
