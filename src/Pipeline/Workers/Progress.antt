-- ===== src/Pipeline/Workers/Progress.antt =====
-- client/datastor/pipeline/async_splitter.go: the steps that the goroutines of a stage have left.
use stor.Base.{
  List, [], ◌∷◌, refl, ℕ, suc, ◌+◌, ◌*◌, ◌<◌, ◌≤◌, ◌≡◌, ◌⊎◌, inl, inr, Bool, Result, ok, err,
  length, length-Pick, here, List-cases, ℕ-cases, arith,
}
use stor.Pipeline.Types.{Error}
use stor.Pipeline.Workers.{Stage, Move, take_item, leave, succeed, fail, give_up, Send, send}
use stor.Pipeline.Workers.Counting.{held}

abbrev pub stage_work : {I O : Type 0} → Stage I O → ℕ
stage_work s = 3 * length s.pending + 3 * length s.busy + 2 * length s.made + s.idle

-- A call returns, with or without an error.
abbrev pub Answers : {I O W : Type 0} → (I → W → Result Error O × W) → Type 0
Answers {I} {O} {W} work =
    (x : I) (w : W)
    → ((o : O) × (w' : W) × (work x w ≡ (ok o, w')))
      ⊎ ((e : Error) × (w' : W) × (work x w ≡ (err e, w')))

module _ {I O W : Type 0} (work : I → W → Result Error O × W) (closed cancelled : Bool) where
  pub Move-stage_work :
      (w w' : W) (s t : Stage I O)
      → Move work closed cancelled w s w' t
      → (stage_work t < stage_work s) × (held t ≤ held s) × (t.is_open ≡ s.is_open)
  Move-stage_work w w' s t (take_item {x = x} {pending = pending} e c) =
      let n = length-Pick x s.pending pending c in (omega (arith, n, e), omega (arith, n), refl)
  Move-stage_work w w' s t (leave e c p) = (omega (arith, e), omega arith, refl)
  Move-stage_work w w' s t (succeed {x = x} {busy = busy} c e) =
      let n = length-Pick x s.busy busy c in (omega (arith, n), omega (arith, n), refl)
  Move-stage_work w w' s t (fail {x = x} {busy = busy} c e) =
      let n = length-Pick x s.busy busy c in (omega (arith, n), omega (arith, n), refl)
  Move-stage_work w w' s t (give_up {y = y} {made = made} c p) =
      let n = length-Pick y s.made made p in (omega (arith, n), omega (arith, n), refl)

  -- A goroutine of a stage has something to do, or has made something, or they are all gone or wait.
  pub stage_looks :
      (w : W) (s : Stage I O)
      → Answers work
      → ((w' : W) × (t : Stage I O) × Move work closed cancelled w s w' t)
        ⊎ (((y : ℕ × O) × (made : List (ℕ × O)) × (s.made ≡ y ∷ made))
            ⊎ ((s.busy ≡ [])
                × (s.made ≡ [])
                × ((s.idle ≡ 0) ⊎ ((n : ℕ) × (s.idle ≡ suc n) × (s.pending ≡ [])))))
  stage_looks w s answers = elim (List-cases s.made) [
    | inr (y, made, e) ↦ inr (inl (y, made, e))
    | inl no_made ↦ elim (List-cases s.busy) [
      | inr (x, busy, e) ↦ elim (answers x.1 w) [
        | inl (o, w', f) ↦ inl (w', _, succeed {x = x} {busy = busy} (rw e here) f)
        | inr (d, w', f) ↦ inl (w', _, fail {x = x} {busy = busy} (rw e here) f)
      ]
      | inl no_busy ↦ elim (ℕ-cases s.idle) [
        | inl no_idle ↦ inr (inr (no_busy, no_made, inl no_idle))
        | inr (n, i) ↦ elim (List-cases s.pending) [
          | inl p ↦ inr (inr (no_busy, no_made, inr (n, i, p)))
          | inr (x, pending, e) ↦ inl (w, _, take_item {x = x} {pending = pending} i (rw e here))
        ]
      ]
    ]
  ]

pub Send-stage_work :
    {I O : Type 0} (s t : Stage I O) (y : ℕ × O)
    → Send s y t
    → (stage_work t < stage_work s) × (held s ≡ suc (held t)) × (t.is_open ≡ s.is_open)
Send-stage_work s t y (send {made = made} c) =
    let n = length-Pick y s.made made c in (omega (arith, n), omega (arith, n), refl)
