-- ===== src/Base/Steps.antt =====
-- Runs of a step relation, and the choice of one item of a list, as a scheduler makes it.
use Prim.Native.Nat.{ℕ, zero, suc, ◌+◌, ◌≤◌, ◌<◌}
use mathlib.Core.Logic.{◌⊎◌, inl, inr}
use native.Mathlib.Nat.{le_refl}
use mathlib.Core.Path.{◌≡◌, refl}
use mathlib.Core.Bool.{Bool}
use mathlib.Core.List.{List, [], ◌∷◌}
use native.Mathlib.Omega.{arith}
use stor.Base.Tests.{if◌then◌else◌}
use stor.Base.Lists.{length, All}

-- Any number of steps.
pub data Runs {A : Type 0} (Step : A → A → Type 0) : A → A → Type 0 where
  done : {a : A} → Runs Step a a
  step : {a b c : A} → Step a b → Runs Step b c → Runs Step a c

module _ {A : Type 0} where
  -- What every step keeps, a run keeps.
  pub Runs-keep :
      {Step : A → A → Type 0} (P : A → Type 0)
      → ((a b : A) → Step a b → P a → P b)
      → (a b : A) → Runs Step a b
      → P a
      → P b
  Runs-keep P keep a b done p = p
  Runs-keep P keep a b (step {b = m} s run) p = Runs-keep P keep m b run (keep a m s p)

  -- `Pick x xs rest`: the list without one of its items.
  pub data Pick : A → List A → List A → Type 0 where
    here : {x : A} {xs : List A} → Pick x (x ∷ xs) xs
    there : {x y : A} {xs rest : List A} → Pick x xs rest → Pick x (y ∷ xs) (y ∷ rest)

  -- The number of items that pass a test.
  abbrev pub count_if : (A → Bool) → List A → ℕ
  count_if p [] = 0
  count_if p (x ∷ xs) = (if p x then 1 else 0) + count_if p xs

  pub count_if-Pick :
      (p : A → Bool) (x : A) (xs rest : List A)
      → Pick x xs rest
      → count_if p xs ≡ (if p x then 1 else 0) + count_if p rest
  count_if-Pick p x xs rest here = refl
  count_if-Pick p x xs rest (there {y = y} {xs = ys} {rest = zs} c) =
      omega (arith, count_if-Pick p x ys zs c)

  pub length-Pick : (x : A) (xs rest : List A) → Pick x xs rest → length xs ≡ suc (length rest)
  length-Pick x xs rest here = refl
  length-Pick x xs rest (there {xs = ys} {rest = zs} c) = omega (arith, length-Pick x ys zs c)

  pub All-Pick {κ} :
      (P : A → Type κ) (x : A) (xs rest : List A) → Pick x xs rest → All P xs → P x × All P rest
  All-Pick P x xs rest here h = h
  All-Pick P x xs rest (there {xs = ys} {rest = zs} c) h =
      let r = All-Pick P x ys zs c h.1 in (r.0, (h.0, r.1))

abbrev pub step_count : {A : Type 0} {Step : A → A → Type 0} {a b : A} → Runs Step a b → ℕ
step_count done = 0
step_count (step s run) = suc (step_count run)

-- Steps that each take away some of the work.
module _ {A : Type 0} (Step : A → A → Type 0) (work : A → ℕ)
    (decrease : (a b : A) → Step a b → work b < work a) where
  pub Runs-bounded : (a b : A) (run : Runs Step a b) → step_count run + work b ≤ work a
  Runs-bounded a b done = omega arith
  Runs-bounded a b (step {b = m} s run) = omega (arith, decrease a m s, Runs-bounded m b run)

  finish_in :
      (Holds IsLast : A → Type 0)
      → ((a b : A) → Step a b → Holds a → Holds b)
      → ((a : A) → Holds a → IsLast a ⊎ ((b : A) × Step a b))
      → (fuel : ℕ) (a : A) → work a ≤ fuel
      → Holds a
      → (last : A) × Runs Step a last × IsLast last
  finish_in Holds IsLast keep next zero a h k = elim (next a k) [
    | inl f ↦ (a, done, f)
    | inr (b, s) ↦ absurd (omega (arith, decrease a b s))
  ]
  finish_in Holds IsLast keep next (suc fuel) a h k = elim (next a k) [
    | inl f ↦ (a, done, f)
    | inr (b, s) ↦
        let (last, run, f) =
          finish_in Holds IsLast keep next fuel b (omega (arith, decrease a b s)) (keep a b s k) in
        (last, step s run, f)
  ]

  -- If a state that an invariant holds of is a last one or has a step, it has a run to a last one.
  pub Runs-finish_kept :
      (Holds IsLast : A → Type 0)
      → ((a b : A) → Step a b → Holds a → Holds b)
      → ((a : A) → Holds a → IsLast a ⊎ ((b : A) × Step a b))
      → (a : A) → Holds a
      → (last : A) × Runs Step a last × IsLast last
  Runs-finish_kept Holds IsLast keep next a k =
      finish_in Holds IsLast keep next (work a) a (le_refl (work a)) k

  pub Runs-finish :
      (IsLast : A → Type 0)
      → ((a : A) → IsLast a ⊎ ((b : A) × Step a b))
      → (a : A) → (last : A) × Runs Step a last × IsLast last
  Runs-finish IsLast next a =
      Runs-finish_kept (λ a. Unit {0}) IsLast (λ a b s k. k) (λ a k. next a) a tt
