-- ===== src/Base/Lists.antt =====
-- Lists measured and indexed by native numbers, and `Seq::new`.
use Prim.Native.Nat.{ℕ, zero, suc, ◌+◌, ◌-◌, ◌≤◌, ◌<◌}
use mathlib.Core.Path.{◌≡◌, refl, ap, ap₂}
use mathlib.Core.List.{List, [], ◌∷◌, ◌++◌}
use native.Mathlib.Omega.{arith}

module _ {ℓ} {A : Type ℓ} where
  abbrev pub length : List A → ℕ
  length [] = 0
  length (x ∷ xs) = suc (length xs)

  -- An index out of range gives the default.
  abbrev pub get_or : List A → ℕ → A → A
  get_or [] i d = d
  get_or (x ∷ xs) zero d = x
  get_or (x ∷ xs) (suc i) d = get_or xs i d

  abbrev pub take : ℕ → List A → List A
  take zero xs = []
  take (suc n) [] = []
  take (suc n) (x ∷ xs) = x ∷ take n xs

  abbrev pub drop : ℕ → List A → List A
  drop zero xs = xs
  drop (suc n) [] = []
  drop (suc n) (x ∷ xs) = drop n xs

  -- `Seq::new(n, f)`
  abbrev pub seq_new : ℕ → (ℕ → A) → List A
  seq_new zero f = []
  seq_new (suc n) f = f 0 ∷ seq_new n (λ i. f (suc i))

module _ {ℓ} {A : Type ℓ} where
  pub length-append : (xs ys : List A) → length (xs ++ ys) ≡ length xs + length ys
  length-append [] ys = omega arith
  length-append (x ∷ xs) ys = omega (arith, length-append xs ys)

  pub length-drop : (n : ℕ) (xs : List A) → length (drop n xs) ≡ length xs - n
  length-drop zero xs = omega arith
  length-drop (suc n) [] = omega arith
  length-drop (suc n) (x ∷ xs) = omega (arith, length-drop n xs)

  pub length-take : (n : ℕ) (xs : List A) → n ≤ length xs → length (take n xs) ≡ n
  length-take zero xs h = refl
  length-take (suc n) [] h = absurd (omega arith)
  length-take (suc n) (x ∷ xs) h = ap suc (length-take n xs (omega arith))

  pub take-append-drop : (n : ℕ) (xs : List A) → take n xs ++ drop n xs ≡ xs
  take-append-drop zero xs = refl
  take-append-drop (suc n) [] = refl
  take-append-drop (suc n) (x ∷ xs) = rw (take-append-drop n xs)

  pub get_or-append_left :
      (xs ys : List A) (i : ℕ) (d : A) → i < length xs → get_or (xs ++ ys) i d ≡ get_or xs i d
  get_or-append_left [] ys i d h = absurd (omega arith)
  get_or-append_left (x ∷ xs) ys zero d h = refl
  get_or-append_left (x ∷ xs) ys (suc i) d h = get_or-append_left xs ys i d (omega arith)

  pub get_or-append_right :
      (xs ys : List A) (i : ℕ) (d : A)
      → length xs ≤ i
      → get_or (xs ++ ys) i d ≡ get_or ys (i - length xs) d
  get_or-append_right [] ys i d h = ap (λ k. get_or ys k d) (omega arith)
  get_or-append_right (x ∷ xs) ys zero d h = absurd (omega arith)
  get_or-append_right (x ∷ xs) ys (suc i) d h =
      let e : i - length xs ≡ suc i - suc (length xs) = omega arith in
      rw (get_or-append_right xs ys i d (omega arith)) (ap (λ k. get_or ys k d) e)

  pub get_or-drop :
      (n : ℕ) (xs : List A) (i : ℕ) (d : A) → get_or (drop n xs) i d ≡ get_or xs (n + i) d
  get_or-drop zero xs i d = ap (λ k. get_or xs k d) (omega arith)
  get_or-drop (suc n) [] i d = refl
  get_or-drop (suc n) (x ∷ xs) i d =
      let e : suc (n + i) ≡ suc n + i = omega arith in
      rw (get_or-drop n xs i d) (ap (λ k. get_or (x ∷ xs) k d) e)

  pub get_or-take :
      (n : ℕ) (xs : List A) (i : ℕ) (d : A) → i < n → get_or (take n xs) i d ≡ get_or xs i d
  get_or-take zero xs i d h = absurd (omega arith)
  get_or-take (suc n) [] i d h = refl
  get_or-take (suc n) (x ∷ xs) zero d h = refl
  get_or-take (suc n) (x ∷ xs) (suc i) d h = get_or-take n xs i d (omega arith)

  pub length-seq_new : (n : ℕ) (f : ℕ → A) → length (seq_new n f) ≡ n
  length-seq_new zero f = refl
  length-seq_new (suc n) f = ap suc (length-seq_new n (λ i. f (suc i)))

  pub get_or-seq_new : (n : ℕ) (f : ℕ → A) (i : ℕ) (d : A) → i < n → get_or (seq_new n f) i d ≡ f i
  get_or-seq_new zero f i d h = absurd (omega arith)
  get_or-seq_new (suc n) f zero d h = refl
  get_or-seq_new (suc n) f (suc i) d h = get_or-seq_new n (λ k. f (suc k)) i d (omega arith)

  pub seq_new_ext :
      (n : ℕ) (f g : ℕ → A) → ((i : ℕ) → i < n → f i ≡ g i) → seq_new n f ≡ seq_new n g
  seq_new_ext zero f g h = refl
  seq_new_ext (suc n) f g h =
      ap₂ ◌∷◌ (h 0 (omega arith))
        (seq_new_ext n (λ i. f (suc i)) (λ i. g (suc i)) (λ i lt. h (suc i) (omega arith)))

  -- A function that agrees with a list on its indices tabulates to it.
  pub seq_new-get_or :
      (xs : List A) (n : ℕ) (f : ℕ → A) (d : A)
      → length xs ≡ n
      → ((i : ℕ) → i < n → f i ≡ get_or xs i d)
      → seq_new n f ≡ xs
  seq_new-get_or [] zero f d e h = refl
  seq_new-get_or [] (suc n) f d e h = absurd (omega arith)
  seq_new-get_or (x ∷ xs) zero f d e h = absurd (omega arith)
  seq_new-get_or (x ∷ xs) (suc n) f d e h =
      ap₂ ◌∷◌ (h 0 (omega arith))
        (seq_new-get_or xs n (λ i. f (suc i)) d (omega arith) (λ i lt. h (suc i) (omega arith)))

  pub seq_new-append :
      (m n : ℕ) (f : ℕ → A) → seq_new m f ++ seq_new n (λ i. f (m + i)) ≡ seq_new (m + n) f
  seq_new-append zero n f =
      let e : 0 + n ≡ n = omega arith in
      rw e (seq_new_ext n (λ i. f (0 + i)) f (λ i lt. ap f (omega arith)))
  seq_new-append (suc m) n f =
      let e : suc m + n ≡ suc (m + n) = omega arith in
      rw e (
        ap (λ t. f 0 ∷ t)
          (rw (← seq_new-append m n (λ i. f (suc i))) (
            ap (λ t. seq_new m (λ i. f (suc i)) ++ t)
              (seq_new_ext n (λ i. f (suc m + i)) (λ i. f (suc (m + i)))
                (λ i lt. ap f (omega arith))))))
