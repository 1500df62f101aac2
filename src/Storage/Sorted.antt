-- ===== src/Storage/Sorted.antt =====
-- `ORDER BY` and `LIMIT`: what stands in what order in the rows of a query.
use mathlib.Core.List.Perm
use mathlib.Core.List.{Perm, perm_middle}
use open_whisker.Prelude.{
  ◌≡◌, refl, ap, ◌⊎◌, ℕ, zero, suc, ◌≤◌, Bool, true, false, List, [], ◌∷◌, ◌++◌, inl, inr,
  Bool-cases, arith, All, length, take, if◌then◌else◌,
}
use open_whisker.Storage.Lists.{where_test, put_in_order, order_by}

-- no row comes before a row above it
abbrev pub Ordered : {A : Type 0} → (A → A → Bool) → List A → Type 0
Ordered before [] = Unit
Ordered before (x ∷ xs) = All (λ y. before y x ≡ false) xs × Ordered before xs

module _ {A : Type 0} (P : A → Type 0) where
  put_in_order-All :
      (before : A → A → Bool) (m : A) (xs : List A)
      → P m
      → All P xs
      → All P (put_in_order before m xs)
  unfolding put_in_order
  put_in_order-All before m [] p h = (p, tt)
  put_in_order-All before m (x ∷ xs) p h = elim (Bool-cases (before x m)) [
    | inl t ↦ rw t (h.0, put_in_order-All before m xs p h.1)
    | inr n ↦ rw n (p, h)
  ]

  pub order_by-All : (before : A → A → Bool) (xs : List A) → All P xs → All P (order_by before xs)
  unfolding order_by
  order_by-All before [] h = tt
  order_by-All before (x ∷ xs) h = put_in_order-All before x _ h.0 (order_by-All before xs h.1)

module _ {A : Type 0} (before : A → A → Bool)
    (asymmetric : (a b : A) → before a b ≡ true → before b a ≡ false)
    (between : (a b c : A) → before a c ≡ true → (before a b ≡ true) ⊎ (before b c ≡ true)) where
  not_before : (a b c : A) → before a b ≡ false → before b c ≡ false → before a c ≡ false
  not_before a b c h k = elim (Bool-cases (before a c)) [
    | inl t ↦ elim (between a b c t) [ inl x ↦ absurd (cc (x, h)) | inr x ↦ absurd (cc (x, k)) ]
    | inr n ↦ n
  ]

  none_before :
      (b c : A) (xs : List A)
      → before b c ≡ false
      → All (λ y. before y b ≡ false) xs
      → All (λ y. before y c ≡ false) xs
  none_before b c [] h k = tt
  none_before b c (x ∷ xs) h k = (not_before x b c k.0 h, none_before b c xs h k.1)

  put_in_order-Ordered :
      (m : A) (xs : List A) → Ordered before xs → Ordered before (put_in_order before m xs)
  unfolding put_in_order
  put_in_order-Ordered m [] o = (tt, tt)
  put_in_order-Ordered m (x ∷ xs) o = elim (Bool-cases (before x m)) [
    | inl t ↦ rw t (
      put_in_order-All (λ y. before y x ≡ false) before m xs (asymmetric x m t) o.0,
      put_in_order-Ordered m xs o.1,
    )
    | inr n ↦ rw n ((n, none_before x m xs n o.0), o)
  ]

  pub order_by-Ordered : (xs : List A) → Ordered before (order_by before xs)
  unfolding order_by
  order_by-Ordered [] = tt
  order_by-Ordered (x ∷ xs) = put_in_order-Ordered x _ (order_by-Ordered xs)

module _ {A : Type 0} (before : A → A → Bool) where
  put_in_order-Perm : (m : A) (xs : List A) → Perm (put_in_order before m xs) (m ∷ xs)
  unfolding put_in_order
  put_in_order-Perm m [] = Perm.refl (m ∷ [])
  put_in_order-Perm m (x ∷ xs) = elim (Bool-cases (before x m)) [
    | inl t ↦ rw t (Perm.trans (Perm.cons _ (put_in_order-Perm m xs)) (Perm.swap _ _ _))
    | inr n ↦ rw n (Perm.refl (m ∷ x ∷ xs))
  ]

  pub order_by-Perm : (xs : List A) → Perm (order_by before xs) xs
  unfolding order_by
  order_by-Perm [] = Perm.refl []
  order_by-Perm (x ∷ xs) =
      Perm.trans (put_in_order-Perm x (order_by before xs)) (Perm.cons _ (order_by-Perm xs))

-- the rows below the first ones
pub drop_rows : {A : Type 0} → ℕ → List A → List A
drop_rows zero xs = xs
drop_rows (suc n) [] = []
drop_rows (suc n) (x ∷ xs) = drop_rows n xs

pub take-drop_rows : {A : Type 0} (n : ℕ) (xs : List A) → take n xs ++ drop_rows n xs ≡ xs
unfolding drop_rows
take-drop_rows zero xs = refl
take-drop_rows (suc n) [] = refl
take-drop_rows (suc n) (x ∷ xs) = ap (λ ys. x ∷ ys) (take-drop_rows n xs)

-- the page is full, or nothing is left out
pub take_full :
    {A : Type 0} (n : ℕ) (xs : List A)
    → (length (take n xs) ≡ n) ⊎ ((length (take n xs) ≤ n) × (drop_rows n xs ≡ []))
unfolding drop_rows
take_full zero xs = inl refl
take_full (suc n) [] = inr (omega arith, refl)
take_full (suc n) (x ∷ xs) = elim (take_full n xs) [
  | inl e ↦ inl (omega (arith, e))
  | inr (l, e) ↦ inr (omega (arith, l), e)
]

-- the rows that a test drops
unfoldable pub dropped : {A : Type 0} → (A → Bool) → List A → List A
dropped f [] = []
dropped f (x ∷ xs) = let rest = dropped f xs in if f x then rest else x ∷ rest

module _ {A : Type 0} (f : A → Bool) where
  pub where_test-Perm : (xs : List A) → Perm (where_test f xs ++ dropped f xs) xs
  unfolding where_test dropped
  where_test-Perm [] = Perm.refl []
  where_test-Perm (x ∷ xs) = elim (Bool-cases (f x)) [
    | inl t ↦ rw t (Perm.cons _ (where_test-Perm xs))
    | inr n ↦ rw n (
        Perm.trans (perm_middle (where_test f xs) (dropped f xs))
          (Perm.cons _ (where_test-Perm xs)))
  ]

  pub where_test-All : (xs : List A) → All (λ x. f x ≡ true) (where_test f xs)
  unfolding where_test
  where_test-All [] = tt
  where_test-All (x ∷ xs) = elim (Bool-cases (f x)) [
    | inl t ↦ rw t (t, where_test-All xs)
    | inr n ↦ rw n (where_test-All xs)
  ]

  pub dropped-All : (xs : List A) → All (λ x. f x ≡ false) (dropped f xs)
  unfolding dropped
  dropped-All [] = tt
  dropped-All (x ∷ xs) = elim (Bool-cases (f x)) [
    | inl t ↦ rw t (dropped-All xs)
    | inr n ↦ rw n (n, dropped-All xs)
  ]
