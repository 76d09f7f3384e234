-- ===== src/Pipeline/Splitter/Jobs/Statuses.antt =====
-- client/datastor/pipeline/async_splitter.go: the status of data, from those of their chunks.
use stor.Base.{ℕ, zero, suc, ◌≡◌, ◌⊎◌, inl, inr, refl, List, [], ◌∷◌, some, get_elem?}
use stor.Storage.Types.{CheckStatus, invalid, valid, optimal}

valid-ne-optimal : ◌≡◌ {A = CheckStatus} valid optimal → ⊥
valid-ne-optimal e = cc

invalid-ne-optimal : ◌≡◌ {A = CheckStatus} invalid optimal → ⊥
invalid-ne-optimal e = cc

-- The status of data whose chunks have the statuses
abbrev pub worst : List CheckStatus → CheckStatus
worst [] = optimal
worst (invalid ∷ later) = invalid
worst (optimal ∷ later) = worst later
worst (valid ∷ later) = elim (worst later) [ invalid ↦ invalid | valid ↦ valid | optimal ↦ valid ]

pub worst_invalid :
    (xs : List CheckStatus) (i : ℕ) → get_elem? xs i ≡ some invalid → worst xs ≡ invalid
worst_invalid [] i e = absurd cc
worst_invalid (invalid ∷ xs) i e = refl
worst_invalid (optimal ∷ xs) zero e = absurd cc
worst_invalid (valid ∷ xs) zero e = absurd cc
worst_invalid (optimal ∷ xs) (suc i) e = worst_invalid xs i e
worst_invalid (valid ∷ xs) (suc i) e = rw (worst_invalid xs i e) refl

pub worst_optimal :
    (xs : List CheckStatus)
    → ((i : ℕ) (x : CheckStatus) → get_elem? xs i ≡ some x → x ≡ optimal)
    → worst xs ≡ optimal
worst_optimal [] h = refl
worst_optimal (optimal ∷ xs) h = worst_optimal xs (λ i x e. h (suc i) x e)
worst_optimal (valid ∷ xs) h = absurd (valid-ne-optimal (h 0 valid refl))
worst_optimal (invalid ∷ xs) h = absurd (invalid-ne-optimal (h 0 invalid refl))

pub worst_readable :
    (xs : List CheckStatus)
    → ((i : ℕ) (x : CheckStatus) → get_elem? xs i ≡ some x → (x ≡ optimal) ⊎ (x ≡ valid))
    → (worst xs ≡ optimal) ⊎ (worst xs ≡ valid)
worst_readable [] h = inl refl
worst_readable (optimal ∷ xs) h = worst_readable xs (λ i x e. h (suc i) x e)
worst_readable (valid ∷ xs) h = elim (worst_readable xs (λ i x e. h (suc i) x e)) [
  | inl e ↦ inr (rw e refl)
  | inr e ↦ inr (rw e refl)
]
worst_readable (invalid ∷ xs) h = elim (h 0 invalid refl) [ inl e ↦ absurd cc | inr e ↦ absurd cc ]

pub worst_valid :
    (xs : List CheckStatus) (i : ℕ)
    → ((i : ℕ) (x : CheckStatus) → get_elem? xs i ≡ some x → (x ≡ optimal) ⊎ (x ≡ valid))
    → get_elem? xs i ≡ some valid
    → worst xs ≡ valid
worst_valid [] i h e = absurd cc
worst_valid (valid ∷ xs) i h e = elim (worst_readable xs (λ i x e. h (suc i) x e)) [
  | inl f ↦ rw f refl
  | inr f ↦ rw f refl
]
worst_valid (invalid ∷ xs) i h e = elim (h 0 invalid refl) [ inl f ↦ absurd cc | inr f ↦ absurd cc ]
worst_valid (optimal ∷ xs) zero h e = absurd cc
worst_valid (optimal ∷ xs) (suc i) h e = worst_valid xs i (λ j x f. h (suc j) x f) e
