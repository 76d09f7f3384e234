-- ===== src/Pipeline/Workers/Counting.antt =====
-- client/datastor/pipeline/async_splitter.go: the items that a stage holds, counted.
use stor.Base.{
  [], ◌∷◌, ◌∷◌, none-ne-some, sym, ap, inr, ◌⊎◌, inl, ℕ, suc, ◌+◌, ◌≡◌, ◌≤◌, refl, List, Bool, true,
  false, Option, none, some, ◌==◌, Result, length, if◌then◌else◌, count_if, count_if-Pick,
  length-Pick, arith,
}
use stor.Pipeline.Types.{Error}
use stor.Pipeline.Workers.{
  Stage, first_of, Move, take_item, leave, succeed, fail, give_up, Send, send,
}

abbrev pub is_number : {A : Type 0} → ℕ → ℕ × A → Bool
is_number i x = x.0 == i

-- How often the number is among the items.
abbrev pub count : {A : Type 0} → ℕ → List (ℕ × A) → ℕ
count i xs = count_if (is_number i) xs

abbrev pub held_as : {I O : Type 0} → ℕ → Stage I O → ℕ
held_as i s = count i s.pending + count i s.busy + count i s.made

abbrev pub held : {I O : Type 0} → Stage I O → ℕ
held s = length s.pending + length s.busy + length s.made

abbrev pub workers : {I O : Type 0} → Stage I O → ℕ
workers s = s.idle + length s.busy + length s.made

pub first_of-none : (d e : Option Error) → first_of d e ≡ none → (d ≡ none) × (e ≡ none)
first_of-none none e h = (refl, h)
first_of-none (some d) e h = absurd cc

-- A step of a stage in which nothing fails keeps its items, and its goroutines if items may come.
pub record Kept {I O : Type 0} (closed : Bool) (s t : Stage I O) : Type 0 where
  pub error_kept : s.error ≡ none
  pub held_as_kept : (i : ℕ) → held_as i t ≡ held_as i s
  pub held_kept : held t ≡ held s
  pub pending_kept : length t.pending ≤ length s.pending
  pub is_open_kept : t.is_open ≡ s.is_open
  pub workers_kept : (workers t ≡ workers s) ⊎ ((closed ≡ true) × (length t.pending ≡ 0))
  pub workers_le_kept : workers t ≤ workers s

module _ {I O W : Type 0} (work : I → W → Result Error O × W) (closed cancelled : Bool)
    (live : cancelled ≡ false) where
  pub Move-Kept :
      (w w' : W) (s t : Stage I O)
      → Move work closed cancelled w s w' t
      → t.error ≡ none
      → Kept closed s t
  Move-Kept w w' s t (take_item {x = x} {pending = pending} e c) h = record {
    error_kept = h;
    held_as_kept = λ i. omega (arith, count_if-Pick (is_number i) x s.pending pending c);
    held_kept = omega (arith, length-Pick x s.pending pending c);
    pending_kept = omega (arith, length-Pick x s.pending pending c);
    is_open_kept = refl;
    workers_kept = inl (omega (arith, e));
    workers_le_kept = omega (arith, e);
  }
  Move-Kept w w' s t (leave e c p) h = record {
    error_kept = h;
    held_as_kept = λ i. refl;
    held_kept = refl;
    pending_kept = omega arith;
    is_open_kept = refl;
    workers_kept = inr (c, ap length p);
    workers_le_kept = omega (arith, e);
  }
  Move-Kept w w' s t (succeed {x = x} {busy = busy} {o = o} c e) h = record {
    error_kept = h;
    held_as_kept = λ i. omega (arith, count_if-Pick (is_number i) x s.busy busy c);
    held_kept = omega (arith, length-Pick x s.busy busy c);
    pending_kept = omega arith;
    is_open_kept = refl;
    workers_kept = inl (omega (arith, length-Pick x s.busy busy c));
    workers_le_kept = omega (arith, length-Pick x s.busy busy c);
  }
  Move-Kept w w' s t (fail {e = x} c e) h =
      absurd (none-ne-some (sym (first_of-none s.error (some x) h).1))
  Move-Kept w w' s t (give_up c p) h = absurd cc

-- A goroutine that sends an item gives it away.
pub record Gave {I O : Type 0} (s : Stage I O) (y : ℕ × O) (t : Stage I O) : Type 0 where
  pub error_kept : s.error ≡ t.error
  pub held_as_kept : (i : ℕ) → held_as i s ≡ (if y.0 == i then 1 else 0) + held_as i t
  pub held_kept : held s ≡ suc (held t)
  pub pending_kept : t.pending ≡ s.pending
  pub is_open_kept : t.is_open ≡ s.is_open
  pub workers_kept : workers t ≡ workers s

pub Send-Gave : {I O : Type 0} (s t : Stage I O) (y : ℕ × O) → Send s y t → Gave s y t
Send-Gave s t y (send {made = made} c) = record {
  error_kept = refl;
  held_as_kept = λ i. omega (arith, count_if-Pick (is_number i) y s.made made c);
  held_kept = omega (arith, length-Pick y s.made made c);
  pending_kept = refl;
  is_open_kept = refl;
  workers_kept = omega (arith, length-Pick y s.made made c);
}

count-le-length : {A : Type 0} (i : ℕ) (xs : List (ℕ × A)) → count i xs ≤ length xs
count-le-length i [] = omega arith
count-le-length i (x ∷ xs) = ground (arith, count-le-length i xs)

pub held_as-zero : {I O : Type 0} (i : ℕ) (s : Stage I O) → held s ≡ 0 → held_as i s ≡ 0
held_as-zero i s h =
    omega (arith, count-le-length i s.pending, count-le-length i s.busy, count-le-length i s.made)

-- An error stays.
pub Move-clean :
    {I O W : Type 0} (work : I → W → Result Error O × W) (closed cancelled : Bool) (w w' : W)
    (s t : Stage I O)
    → Move work closed cancelled w s w' t
    → t.error ≡ none
    → s.error ≡ none
Move-clean work closed cancelled w w' s t (take_item a c) h = h
Move-clean work closed cancelled w w' s t (leave a c p) h = h
Move-clean work closed cancelled w w' s t (succeed c a) h = h
Move-clean work closed cancelled w w' s t (fail {e = x} c a) h =
    (first_of-none s.error (some x) h).0
Move-clean work closed cancelled w w' s t (give_up c p) h = h
