-- ===== src/Auth/Scopes.antt =====
-- server/jwt/verifier.go: the scopes of two labels, compared.
use mathlib.Core.List.{append_assoc}
use stor.Base.{
  ==_iff, Bool, false, Bool-cases, ℕ, zero, suc, ◌≤◌, ◌≡◌, inl, inr, refl, sym, ap, ◌∙◌, Bytes,
  has_prefix, codes, [], ◌∷◌, ◌++◌, Bool, true, false, Bool-cases, ◌==◌, ◌||◌, arith, length, drop,
  ok,
}
use stor.Auth.{
  label_mark, replace_first, count_from, admin_scope, is_valid_label, method_read, method_admin,
  expected_scopes,
}

-- The part occurs in the text.
abbrev occurs : Bytes → Bytes → Bool
occurs part [] = false
occurs part (x ∷ xs) = has_prefix (x ∷ xs) part || occurs part xs

has_prefix-length : (xs part : Bytes) → has_prefix xs part ≡ true → length part ≤ length xs
has_prefix-length xs [] h = omega arith
has_prefix-length [] (y ∷ part) h = absurd (cc)
has_prefix-length (x ∷ xs) (y ∷ part) h = elim (Bool-cases (x == y)) [
  | inl e ↦ omega (arith, has_prefix-length xs part (rw e at h))
  | inr e ↦ absurd (cc)
]

occurs-length : (part xs : Bytes) → occurs part xs ≡ true → length part ≤ length xs
occurs-length part [] h = absurd (cc)
occurs-length part (x ∷ xs) h = elim (Bool-cases (has_prefix (x ∷ xs) part)) [
  | inl e ↦ has_prefix-length (x ∷ xs) part e
  | inr e ↦ omega (arith, occurs-length part xs (rw e at h))
]

has_prefix-append :
    (xs ys part : Bytes) → length part ≤ length xs → has_prefix (xs ++ ys) part ≡ has_prefix xs part
has_prefix-append xs ys [] h = refl
has_prefix-append [] ys (y ∷ part) h = absurd (omega arith)
has_prefix-append (x ∷ xs) ys (y ∷ part) h = rw (has_prefix-append xs ys part (omega arith)) refl

drop-append : (n : ℕ) (xs ys : Bytes) → n ≤ length xs → drop n (xs ++ ys) ≡ drop n xs ++ ys
drop-append zero xs ys h = refl
drop-append (suc n) [] ys h = absurd (omega arith)
drop-append (suc n) (x ∷ xs) ys h = drop-append n xs ys (omega arith)

replace_first-append :
    (part by xs ys : Bytes)
    → occurs part xs ≡ true
    → replace_first part by (xs ++ ys) ≡ replace_first part by xs ++ ys
replace_first-append part by [] ys h = absurd (cc)
replace_first-append part by (x ∷ xs) ys h =
    let size = occurs-length part (x ∷ xs) h in
    let same = has_prefix-append (x ∷ xs) ys part size in
    elim (Bool-cases (has_prefix (x ∷ xs) part)) [
      | inl e ↦
          rw (same, e)
            (ap (λ zs. by ++ zs) (drop-append (length part) (x ∷ xs) ys size)
              ∙ sym (append_assoc by (drop (length part) (x ∷ xs)) ys))
      | inr e ↦ rw (same, e) (ap (◌∷◌ x) (replace_first-append part by xs ys (rw e at h)))
    ]

false-ne : ◌≡◌ {A = Bool} false true → ⊥
false-ne e = cc

occurs-count_from :
    (part : Bytes) (n : ℕ) (xs : Bytes) → count_from part 0 xs ≡ suc n → occurs part xs ≡ true
occurs-count_from part n [] h = absurd (omega arith)
occurs-count_from part n (x ∷ xs) h = elim (Bool-cases (has_prefix (x ∷ xs) part)) [
  | inl e ↦ rw e refl
  | inr e ↦ rw e (occurs-count_from part n xs (rw e at h))
]

is_valid_label-occurs :
    (label : Bytes) → is_valid_label label ≡ true → occurs label_mark label ≡ true
unfolding is_valid_label
is_valid_label-occurs label h = elim (Bool-cases (count_from label_mark 0 label == 1)) [
  | inl e ↦ occurs-count_from label_mark 0 label ((==_iff (count_from label_mark 0 label) 1).0 e)
  | inr e ↦ absurd (false-ne (rw e at h))
]

-- The scope that lets a user read a namespace is the admin scope of the namespace whose label has
-- ".read" behind it, if both labels are valid: who may read the one may do everything with the other.
pub read_scope-admin_scope :
    (label : Bytes)
    → is_valid_label label ≡ true
    → is_valid_label (label ++ codes ".read") ≡ true
    → (scope : Bytes) × (expected_scopes method_read label ≡ ok (scope ∷ admin_scope label ∷ []))
      × (expected_scopes method_admin (label ++ codes ".read") ≡ ok (scope ∷ []))
unfolding expected_scopes
read_scope-admin_scope label h k = (
  admin_scope label ++ codes ".read",
  rw h refl,
  rw k (
      ap (λ s. ok (s ∷ []))
        (unfold admin_scope in
          replace_first-append label_mark (codes ".0stor.") label (codes ".read")
            (is_valid_label-occurs label h))),
)
