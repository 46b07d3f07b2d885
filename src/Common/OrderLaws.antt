-- ===== src/Common/OrderLaws.antt =====
-- The laws of ORDER BY, LIMIT and WHERE.
use signalyard.Common.{
  ℕ, zero, suc, ◌≤◌, ◌≡◌, refl, Bool, true, false, List, [], ◌∷◌, map, arith, take, length, select,
  insert_by, order_by, Bool-cases, inl, inr,
}

module _ {A : Type 0} where
  -- Of every element.
  abbrev pub AllOf : (A → Type 0) → List A → Type 0
  AllOf P [] = Unit {0}
  AllOf P (x ∷ xs) = P x × AllOf P xs

  -- Each element may come before all that follow it.
  abbrev pub IsSorted : (A → A → Bool) → List A → Type 0
  IsSorted before [] = Unit {0}
  IsSorted before (x ∷ xs) = AllOf (λ y. before x y ≡ true) xs × IsSorted before xs

  pub select-AllOf : (p : A → Bool) (xs : List A) → AllOf (λ x. p x ≡ true) (select p xs)
  unfolding select
  select-AllOf p [] = tt
  select-AllOf p (x ∷ xs) = elim (Bool-cases (p x)) [
    | inl e ↦ rw e (e, select-AllOf p xs)
    | inr e ↦ rw e (select-AllOf p xs)
  ]

  pub take-AllOf : (P : A → Type 0) (n : ℕ) (xs : List A) → AllOf P xs → AllOf P (take n xs)
  take-AllOf P zero xs a = tt
  take-AllOf P (suc n) [] a = tt
  take-AllOf P (suc n) (x ∷ xs) (a, b) = (a, take-AllOf P n xs b)

  pub take-IsSorted :
      (before : A → A → Bool) (n : ℕ) (xs : List A)
      → IsSorted before xs
      → IsSorted before (take n xs)
  take-IsSorted before zero xs s = tt
  take-IsSorted before (suc n) [] s = tt
  take-IsSorted before (suc n) (x ∷ xs) (a, s) =
      (take-AllOf (λ y. before x y ≡ true) n xs a, take-IsSorted before n xs s)

  pub length-take : (n : ℕ) (xs : List A) → length (take n xs) ≤ n
  length-take zero xs = omega arith
  length-take (suc n) [] = omega arith
  length-take (suc n) (x ∷ xs) = omega (arith, length-take n xs)

  weaken : (P Q : A → Type 0) (xs : List A) → ((x : A) → P x → Q x) → AllOf P xs → AllOf Q xs
  weaken P Q [] f a = tt
  weaken P Q (x ∷ xs) f (a, b) = (f x a, weaken P Q xs f b)

  module _ (before : A → A → Bool) where
    insert_by-AllOf :
        (P : A → Type 0) (x : A) (xs : List A) → P x → AllOf P xs → AllOf P (insert_by before x xs)
    unfolding insert_by
    insert_by-AllOf P x [] p a = (p, tt)
    insert_by-AllOf P x (y ∷ ys) p (a, b) = elim (Bool-cases (before y x)) [
      | inl e ↦ rw e (a, insert_by-AllOf P x ys p b)
      | inr e ↦ rw e (p, (a, b))
    ]

    pub order_by-AllOf : (P : A → Type 0) (xs : List A) → AllOf P xs → AllOf P (order_by before xs)
    unfolding order_by
    order_by-AllOf P [] a = tt
    order_by-AllOf P (x ∷ xs) (a, b) =
        insert_by-AllOf P x (order_by before xs) a (order_by-AllOf P xs b)

    -- For an order that compares any two elements.
    module _ (total : (x y : A) → before y x ≡ false → before x y ≡ true)
        (trans : (x y z : A) → before x y ≡ true → before y z ≡ true → before x z ≡ true) where
      insert_by-IsSorted :
          (x : A) (xs : List A) → IsSorted before xs → IsSorted before (insert_by before x xs)
      unfolding insert_by
      insert_by-IsSorted x [] s = (tt, tt)
      insert_by-IsSorted x (y ∷ ys) (a, s) = elim (Bool-cases (before y x)) [
        | inl e ↦
            rw e (insert_by-AllOf (λ z. before y z ≡ true) x ys e a, insert_by-IsSorted x ys s)
        | inr e ↦ let h = total x y e in rw e ((h, weaken _ _ ys (λ z. trans x y z h) a), (a, s))
      ]

      pub order_by-IsSorted : (xs : List A) → IsSorted before (order_by before xs)
      unfolding order_by
      order_by-IsSorted [] = tt
      order_by-IsSorted (x ∷ xs) = insert_by-IsSorted x (order_by before xs) (order_by-IsSorted xs)

module _ {A B : Type 0} (f : A → B) where
  pub map-AllOf : (P : B → Type 0) (xs : List A) → AllOf (λ x. P (f x)) xs → AllOf P (map f xs)
  map-AllOf P [] a = tt
  map-AllOf P (x ∷ xs) (a, b) = (a, map-AllOf P xs b)

  pub map-IsSorted :
      (before : B → B → Bool) (xs : List A)
      → IsSorted (λ x y. before (f x) (f y)) xs
      → IsSorted before (map f xs)
  map-IsSorted before [] s = tt
  map-IsSorted before (x ∷ xs) (a, s) =
      (map-AllOf (λ z. before (f x) z ≡ true) xs a, map-IsSorted before xs s)

  pub length-map : (xs : List A) → length (map f xs) ≡ length xs
  length-map [] = refl
  length-map (x ∷ xs) = rw (length-map xs) refl
