-- ===== src/Pipeline/Numbered.antt =====
-- client/datastor/pipeline/async_splitter.go: items with the numbers that bring them back into order.
use stor.Base.{
  some-injective, ℕ, zero, suc, ◌<◌, ◌≡◌, refl, List, [], ◌∷◌, ◌++◌, Option, none, some, ◌==◌,
  if◌then◌else◌, length, get_elem?, set, take, arith,
}

module _ {A : Type 0} where
  -- A map from numbers: the entry made last counts.
  abbrev pub lookup_number : ℕ → List (ℕ × A) → Option A
  lookup_number i [] = none
  lookup_number i ((n, a) ∷ later) = if n == i then some a else lookup_number i later

  pub get_elem?-set :
      (xs : List A) (i j : ℕ) (a : A)
      → i < length xs
      → get_elem? (set xs i a) j ≡ (if i == j then some a else get_elem? xs j)
  get_elem?-set [] i j a h = absurd (omega arith)
  get_elem?-set (x ∷ xs) zero zero a h = refl
  get_elem?-set (x ∷ xs) zero (suc j) a h = ground arith
  get_elem?-set (x ∷ xs) (suc i) zero a h = ground arith
  get_elem?-set (x ∷ xs) (suc i) (suc j) a h = ground (arith, get_elem?-set xs i j a (omega arith))

  -- The same for a read in bounds: a write out of bounds changes nothing.
  pub get_elem?-set_read :
      (xs : List A) (i j : ℕ) (a : A)
      → j < length xs
      → get_elem? (set xs i a) j ≡ (if i == j then some a else get_elem? xs j)
  get_elem?-set_read [] i j a h = absurd (omega arith)
  get_elem?-set_read (x ∷ xs) zero zero a h = refl
  get_elem?-set_read (x ∷ xs) zero (suc j) a h = ground arith
  get_elem?-set_read (x ∷ xs) (suc i) zero a h = ground arith
  get_elem?-set_read (x ∷ xs) (suc i) (suc j) a h =
      ground (arith, get_elem?-set_read xs i j a (omega arith))

  pub get_elem?-append :
      (xs ys : List A) (i : ℕ) → i < length xs → get_elem? (xs ++ ys) i ≡ get_elem? xs i
  get_elem?-append [] ys i h = absurd (omega arith)
  get_elem?-append (x ∷ xs) ys zero h = refl
  get_elem?-append (x ∷ xs) ys (suc i) h = get_elem?-append xs ys i (omega arith)

  pub get_elem?-take :
      (n : ℕ) (xs : List A) (i : ℕ) → i < n → get_elem? (take n xs) i ≡ get_elem? xs i
  get_elem?-take zero xs i h = absurd (omega arith)
  get_elem?-take (suc n) [] i h = refl
  get_elem?-take (suc n) (x ∷ xs) zero h = refl
  get_elem?-take (suc n) (x ∷ xs) (suc i) h = get_elem?-take n xs i (omega arith)

  pub get_elem?-lt : (xs : List A) (i : ℕ) (a : A) → get_elem? xs i ≡ some a → i < length xs
  get_elem?-lt [] i a e = absurd cc
  get_elem?-lt (x ∷ xs) zero a e = omega arith
  get_elem?-lt (x ∷ xs) (suc i) a e = omega (arith, get_elem?-lt xs i a e)

-- The items of two lists are related one by one.
abbrev pub Related : {A B : Type 0} → (A → B → Type 0) → List A → List B → Type 0
Related R [] [] = Unit {0}
Related R [] (y ∷ ys) = ⊥
Related R (x ∷ xs) [] = ⊥
Related R (x ∷ xs) (y ∷ ys) = R x y × Related R xs ys

module _ {A B : Type 0} (R : A → B → Type 0) where
  pub Related-of_get :
      (xs : List A) (ys : List B)
      → length xs ≡ length ys
      → ((i : ℕ)
          → i < length ys
          → (a : A) × (b : B) × (get_elem? xs i ≡ some a) × (get_elem? ys i ≡ some b) × R a b)
      → Related R xs ys
  Related-of_get [] [] e f = tt
  Related-of_get [] (b ∷ ys) e f = absurd (omega arith)
  Related-of_get (a ∷ xs) [] e f = absurd (omega arith)
  Related-of_get (a ∷ xs) (b ∷ ys) e f =
      let (a', b', p, q, r) = f 0 (omega arith) in
      (
        rw (some-injective p, some-injective q) r,
        Related-of_get xs ys (omega arith) (λ i h. f (suc i) (omega arith)),
      )

  pub length-Related : (xs : List A) (ys : List B) → Related R xs ys → length xs ≡ length ys
  length-Related [] [] r = refl
  length-Related [] (b ∷ ys) r = absurd r
  length-Related (a ∷ xs) [] r = absurd r
  length-Related (a ∷ xs) (b ∷ ys) r = omega (arith, length-Related xs ys r.1)

  pub Related-get_right :
      (xs : List A) (ys : List B) (i : ℕ) (b : B)
      → Related R xs ys
      → get_elem? ys i ≡ some b
      → (a : A) × (get_elem? xs i ≡ some a) × R a b
  Related-get_right xs [] i b r e = absurd cc
  Related-get_right [] (y ∷ ys) i b r e = absurd r
  Related-get_right (x ∷ xs) (y ∷ ys) zero b r e = (x, refl, rw (some-injective e) at r.0)
  Related-get_right (x ∷ xs) (y ∷ ys) (suc i) b r e = Related-get_right xs ys i b r.1 e

  pub Related-get :
      (xs : List A) (ys : List B) (i : ℕ) (a : A)
      → Related R xs ys
      → get_elem? xs i ≡ some a
      → (b : B) × (get_elem? ys i ≡ some b) × R a b
  Related-get [] ys i a r e = absurd cc
  Related-get (x ∷ xs) [] i a r e = absurd r
  Related-get (x ∷ xs) (y ∷ ys) zero a r e = (y, refl, rw (some-injective e) at r.0)
  Related-get (x ∷ xs) (y ∷ ys) (suc i) a r e = Related-get xs ys i a r.1 e
