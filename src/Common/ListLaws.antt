-- ===== src/Common/ListLaws.antt =====
-- The laws of the table operations.
use Prim.Native.Nat.{max}
use signalyard.Common.{
  ℕ, ◌+◌, ◌≤◌, ◌≡◌, refl, Bool, true, false, List, [], ◌∷◌, ◌++◌, none, some, arith, select, find,
  update, count, max_of,
}

module _ {ℓ} {A : Type ℓ} where
  pub count-append : (p : A → Bool) (xs ys : List A) → count p (xs ++ ys) ≡ count p xs + count p ys
  unfolding count
  count-append p [] ys = omega arith
  count-append p (x ∷ xs) ys = ground (arith, count-append p xs ys)

  pub max_of-append :
      (f : A → ℕ) (p : A → Bool) (xs ys : List A)
      → max_of f p (xs ++ ys) ≡ max (max_of f p xs) (max_of f p ys)
  unfolding max_of
  max_of-append f p [] ys = omega arith
  max_of-append f p (x ∷ xs) ys = ground (arith, max_of-append f p xs ys)

  -- An update that a test does not see.
  pub count-update :
      (p q : A → Bool) (f : A → A) (xs : List A)
      → ((x : A) → q (f x) ≡ q x)
      → count q (update p f xs) ≡ count q xs
  unfolding count update
  count-update p q f [] h = refl
  count-update p q f (x ∷ xs) h = ground (arith, h x, count-update p q f xs h)

  pub max_of-update :
      (g : A → ℕ) (p q : A → Bool) (f : A → A) (xs : List A)
      → ((x : A) → q (f x) ≡ q x)
      → ((x : A) → g (f x) ≡ g x)
      → max_of g q (update p f xs) ≡ max_of g q xs
  unfolding max_of update
  max_of-update g p q f [] h k = refl
  max_of-update g p q f (x ∷ xs) h k = ground (arith, h x, k x, max_of-update g p q f xs h k)

  pub count-select-le : (p q : A → Bool) (xs : List A) → count q (select p xs) ≤ count q xs
  unfolding count select
  count-select-le p q [] = omega arith
  count-select-le p q (x ∷ xs) = ground (arith, count-select-le p q xs)

  pub max_of-le :
      (f : A → ℕ) (p q : A → Bool) (xs : List A)
      → ((x : A) → p x ≡ true → q x ≡ true)
      → max_of f p xs ≤ max_of f q xs
  unfolding max_of
  max_of-le f p q [] h = omega arith
  max_of-le f p q (x ∷ xs) h = ground (arith, h x, max_of-le f p q xs h)

  -- No row that a test accepts.
  pub count-select_none :
      (p q : A → Bool) (xs : List A)
      → ((x : A) → p x ≡ true → q x ≡ false)
      → count q (select p xs) ≡ 0
  unfolding count select
  count-select_none p q [] h = refl
  count-select_none p q (x ∷ xs) h = ground (arith, h x, count-select_none p q xs h)

  pub max_of-select :
      (f : A → ℕ) (p q : A → Bool) (xs : List A)
      → ((x : A) → q x ≡ true → p x ≡ true)
      → max_of f q (select p xs) ≡ max_of f q xs
  unfolding max_of select
  max_of-select f p q [] h = refl
  max_of-select f p q (x ∷ xs) h = ground (arith, h x, max_of-select f p q xs h)

  pub count-select :
      (p q : A → Bool) (xs : List A)
      → ((x : A) → q x ≡ true → p x ≡ true)
      → count q (select p xs) ≡ count q xs
  unfolding count select
  count-select p q [] h = refl
  count-select p q (x ∷ xs) h = ground (arith, h x, count-select p q xs h)

  -- The first row of a test after one is appended, or after the rows of that test are changed.
  pub find-append :
      (p : A → Bool) (a x : A) (xs : List A) → find p xs ≡ some x → find p (xs ++ a ∷ []) ≡ some x
  unfolding find
  find-append p a x [] h = ground arith
  find-append p a x (y ∷ xs) h = ground (arith, find-append p a x xs)

  pub find-append_new :
      (p : A → Bool) (a : A) (xs : List A)
      → p a ≡ true
      → find p xs ≡ none
      → find p (xs ++ a ∷ []) ≡ some a
  unfolding find
  find-append_new p a [] i h = ground arith
  find-append_new p a (x ∷ xs) i h = ground (arith, find-append_new p a xs)

  pub find-update :
      (p : A → Bool) (f : A → A) (x : A) (xs : List A)
      → ((y : A) → p (f y) ≡ p y)
      → find p xs ≡ some x
      → find p (update p f xs) ≡ some (f x)
  unfolding find update
  find-update p f x [] own h = ground arith
  find-update p f x (y ∷ xs) own h = ground (arith, find-update p f x xs own, own y)

  -- An update of more rows than are looked for.
  pub find-update_more :
      (p u : A → Bool) (f : A → A) (x : A) (xs : List A)
      → ((y : A) → p (f y) ≡ p y)
      → ((y : A) → p y ≡ true → u y ≡ true)
      → find p xs ≡ some x
      → find p (update u f xs) ≡ some (f x)
  unfolding find update
  find-update_more p u f x [] own more h = ground arith
  find-update_more p u f x (y ∷ xs) own more h =
      ground (arith, find-update_more p u f x xs own more, own y, more y)
