-- ===== src/Cluster/Iterators/Random.antt =====
-- client/datastor/cluster.go: what RandomShardIterator hands out.
use mathlib.Core.List.{Perm}
use mathlib.Core.List.Perm
use mathlib.Core.Path.{ap₂}
use mathlib.Core.List.{perm_append_singleton}
use native.Mathlib.Nat.{le_refl}
use native.Mathlib.Decide.{dec_lt}
use stor.Base.{
  Bool, take_all, le→ltb_false, ◌-◌, none, ℕ, zero, suc, ◌-◌, ◌<◌, ◌≤◌, ◌≡◌, refl, sym, ap, ◌∙◌,
  List, [], ◌∷◌, ◌++◌, Option, none, some, map, arith, get_elem?, set, take, length, length-set,
  true,
}
use stor.Cluster.Iterators.{RandomIterator, new_random_iterator, next, swap, drain, shard}

-- Draws that fit the number of shards that are left, one for each.
abbrev pub AreDraws : ℕ → List ℕ → Type 0
AreDraws zero draws = Unit
AreDraws (suc n) [] = ⊥
AreDraws (suc n) (i ∷ draws) = (i < suc n) × AreDraws n draws

module _ {A : Type 0} where
  some_eq : {a b : A} → ◌≡◌ {A = Option A} (some a) (some b) → a ≡ b
  some_eq e = cc

  take-set_ge : (n i : ℕ) (xs : List A) (v : A) → n ≤ i → take n (set xs i v) ≡ take n xs
  take-set_ge zero i xs v h = refl
  take-set_ge (suc n) i [] v h = refl
  take-set_ge (suc n) zero (x ∷ xs) v h = absurd (omega arith)
  take-set_ge (suc n) (suc i) (x ∷ xs) v h = ap (◌∷◌ x) (take-set_ge n i xs v (omega arith))

  take-set_lt : (n i : ℕ) (xs : List A) (v : A) → i < n → take n (set xs i v) ≡ set (take n xs) i v
  take-set_lt zero i xs v h = absurd (omega arith)
  take-set_lt (suc n) i [] v h = refl
  take-set_lt (suc n) zero (x ∷ xs) v h = refl
  take-set_lt (suc n) (suc i) (x ∷ xs) v h = ap (◌∷◌ x) (take-set_lt n i xs v (omega arith))

  get_elem?-take : (n i : ℕ) (xs : List A) → i < n → get_elem? (take n xs) i ≡ get_elem? xs i
  get_elem?-take zero i xs h = absurd (omega arith)
  get_elem?-take (suc n) i [] h = refl
  get_elem?-take (suc n) zero (x ∷ xs) h = refl
  get_elem?-take (suc n) (suc i) (x ∷ xs) h = get_elem?-take n i xs (omega arith)

  get_elem?-set_same :
      (i : ℕ) (xs : List A) (v : A) → i < length xs → get_elem? (set xs i v) i ≡ some v
  get_elem?-set_same i [] v h = absurd (omega arith)
  get_elem?-set_same zero (x ∷ xs) v h = refl
  get_elem?-set_same (suc i) (x ∷ xs) v h = get_elem?-set_same i xs v (omega arith)

  get_elem?-lt : (i : ℕ) (xs : List A) → i < length xs → (a : A) × (get_elem? xs i ≡ some a)
  get_elem?-lt i [] h = absurd (omega arith)
  get_elem?-lt zero (x ∷ xs) h = (x, refl)
  get_elem?-lt (suc i) (x ∷ xs) h = get_elem?-lt i xs (omega arith)

  take-suc :
      (n : ℕ) (xs : List A) (b : A)
      → get_elem? xs n ≡ some b
      → take (suc n) xs ≡ take n xs ++ (b ∷ [])
  take-suc n [] b h = absurd (cc)
  take-suc zero (x ∷ xs) b h = cc
  take-suc (suc n) (x ∷ xs) b h = ap (◌∷◌ x) (take-suc n xs b h)

  set-perm :
      (i : ℕ) (xs : List A) (a b : A) → get_elem? xs i ≡ some a → Perm (a ∷ set xs i b) (b ∷ xs)
  set-perm i [] a b h = absurd (cc)
  set-perm zero (x ∷ xs) a b h = rw (some_eq h) (Perm.swap b a xs)
  set-perm (suc i) (x ∷ xs) a b h =
      Perm.trans (Perm.swap x a (set xs i b))
        (Perm.trans (Perm.cons x (set-perm i xs a b h)) (Perm.swap b x xs))

  -- The values that are left after a swap, for the two values that it moves.
  taken-perm :
      (n i : ℕ) (xs : List A) (a b : A)
      → i < suc n
      → get_elem? xs i ≡ some a
      → get_elem? xs n ≡ some b
      → Perm (a ∷ take n (set xs i b)) (take n xs ++ (b ∷ []))
  taken-perm n i xs a b k ea eb = elim (dec_lt i n) [
    | yes below ↦ rw (take-set_lt n i xs b below) (
        Perm.trans (set-perm i (take n xs) a b (get_elem?-take n i xs below ∙ ea))
          (Perm.symm (perm_append_singleton b (take n xs))))
    | no above ↦
        let last : i ≡ n = omega arith in
        let same : a ≡ b = some_eq (sym ea ∙ (ap (get_elem? xs) last ∙ eb)) in
        rw (take-set_ge n i xs b (omega arith), same)
          (Perm.symm (perm_append_singleton b (take n xs)))
  ]

  -- One step hands out one of the values that are left, and keeps the others.
  swap-perm :
      (n i : ℕ) (xs : List A)
      → suc n ≤ length xs
      → i < suc n
      → (a : A) × (get_elem? (swap i n xs) n ≡ some a)
        × (Perm (a ∷ take n (swap i n xs)) (take (suc n) xs))
        × (length (swap i n xs) ≡ length xs)
  unfolding swap
  swap-perm n i xs h k =
      let (a, ea) = get_elem?-lt i xs (omega arith) in
      let (b, eb) = get_elem?-lt n xs (omega arith) in
      rw (ea, eb)
        (
          a,
          get_elem?-set_same n (set xs i b) a (omega (arith, length-set xs i b)),
          rw (take-set_ge n n (set xs i b) a (le_refl n), take-suc n xs b eb)
              (taken-perm n i xs a b k ea eb),
          length-set (set xs i b) n a ∙ length-set xs i b,
        )

  next_lem :
      (n i : ℕ) (xs : List A) (c : Option A)
      → next i (record { slice = xs; len = suc n; current = c })
        ≡ (true, record { slice = swap i n xs; len = n; current = get_elem? (swap i n xs) n })
  unfolding next
  next_lem n i xs c =
      let e : suc n - 1 ≡ n = omega arith in rw (le→ltb_false (suc n) 1 (omega arith)) (rw e)

  drain-next :
      (i : ℕ) (draws : List ℕ) (it it' : RandomIterator A)
      → next i it ≡ (true, it')
      → drain (i ∷ draws) it ≡ shard it' ∷ drain draws it'
  unfolding drain
  drain-next i draws it it' e =
      ap
        (λ (r : Bool × RandomIterator A). elim r.0 as (λ _. List (Option A)) [
          | true ↦ shard r.1 ∷ drain draws r.1
          | mathlib.Core.Bool.false ↦ []
        ])
        e

  drain-perm :
      (n : ℕ) (draws : List ℕ) (xs : List A) (c : Option A)
      → n ≤ length xs
      → AreDraws n draws
      → (ys : List A) × (drain draws (record { slice = xs; len = n; current = c }) ≡ map some ys)
        × Perm ys (take n xs)
  unfolding drain shard
  drain-perm zero [] xs c h k = ([], refl, Perm.nil)
  drain-perm zero (i ∷ draws) xs c h k = ([], unfold next in refl, Perm.nil)
  drain-perm (suc n) [] xs c h k = absurd k
  drain-perm (suc n) (i ∷ draws) xs c h k =
      let (a, out, p, l) = swap-perm n i xs h k.0 in
      let (ys, e, q) =
        drain-perm n draws (swap i n xs) (get_elem? (swap i n xs) n) (omega arith) k.1 in
      (
        a ∷ ys,
        drain-next i draws _ _ (next_lem n i xs c) ∙ ap₂ (◌∷◌) out e,
        Perm.trans (Perm.cons a q) p,
      )

-- Whatever numbers are drawn in range, the iterator hands out every shard exactly once.
pub drain_all :
    {A : Type 0} (shards : List A) (draws : List ℕ)
    → AreDraws (length shards) draws
    → (ys : List A) × (drain draws (new_random_iterator shards) ≡ map some ys) × Perm ys shards
unfolding new_random_iterator
drain_all shards draws k =
    rw (take_all (length shards) shards (le_refl _)) at
      (drain-perm (length shards) draws shards none (le_refl _) k)
