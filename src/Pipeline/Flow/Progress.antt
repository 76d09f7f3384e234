-- ===== src/Pipeline/Flow/Progress.antt =====
-- client/datastor/pipeline/async_splitter.go: the goroutines of Write and Read do not block each other.
use stor.Base.{
  ℕ, suc, ◌<◌, ◌≡◌, ◌⊎◌, inl, inr, refl, ap, List, [], ◌∷◌, true, false, not, Option, length,
  Bool-cases, List-cases, arith, Runs, Runs-finish_kept, Runs-keep, here,
}
use stor.Pipeline.Types.{Error}
use stor.Pipeline.Workers.{Stage, leave, give_up, send, IsDrained}
use stor.Pipeline.Workers.Progress.{Answers, stage_looks}
use stor.Pipeline.Flow.{
  Stages, Flow, is_some, Step, IsFinished, feed, feed_end, feed_stop, move_one, send_one, close_one,
  move_two, send_two, close_two, start,
}
use stor.Pipeline.Flow.Live.{IsLive, Step-IsLive, start-IsLive}
use stor.Pipeline.Flow.Ending.{flow_work, Step-flow_work}

module _ (S : Stages) where
  module _ (first : Answers S.first) (second : Answers S.second) where
    Next : Flow S → Type 0
    Next a = (b : Flow S) × Step S a b

    -- The goroutines of the stage are gone, or all wait for an item.
    abbrev Quiet : {I O : Type 0} → Stage I O → Type 0
    Quiet s =
        (s.busy ≡ [])
        × (s.made ≡ [])
        × ((s.idle ≡ 0) ⊎ ((n : ℕ) × (s.idle ≡ suc n) × (s.pending ≡ [])))

    drained : {I O : Type 0} (s : Stage I O) → s.idle ≡ 0 → s.busy ≡ [] → s.made ≡ [] → IsDrained s
    drained s i b m = record { none_idle = i; none_busy = b; none_made = m }

    -- What has been made can be sent on, or is given up.
    send_goes_on :
        (a : Flow S) (y : ℕ × S.Mid) (made : List (ℕ × S.Mid))
        → IsLive a
        → a.one.made ≡ y ∷ made
        → Quiet a.two
        → Next a
    unfolding Next
    send_goes_on a y made h e (busy, none_made, inr (n, i, p)) = (
      _,
      send_one {y = y} (send {made = made} (rw e here)) (omega (arith, h.room_two, ap length p)),
    )
    send_goes_on a y made h e (busy, none_made, inl none_idle) = elim (Bool-cases a.two.is_open) [
      | inl o ↦ (_, close_two o (drained a.two none_idle busy none_made))
      | inr o ↦ elim (Bool-cases (is_some a.error)) [
        | inl c ↦ (_, move_one (give_up {y = y} {made = made} c (rw e here)))
        | inr c ↦ elim (Bool-cases a.one.is_open) [
          | inl q ↦ absurd (omega (arith, rw (o, c, q) at h.open_two))
          | inr q ↦ absurd (omega (arith, h.closed_one q, ap length e))
        ]
      ]
    ]

    -- The source can go on while the first stage waits.
    feed_goes_on : (a : Flow S) → IsLive a → a.feeding ≡ true → Quiet a.one → Next a
    unfolding Next
    feed_goes_on a h f (busy, made, inl none_idle) = elim (Bool-cases a.one.is_open) [
      | inl o ↦ (_, close_one o (drained a.one none_idle busy made))
      | inr o ↦ elim (Bool-cases (is_some a.error)) [
        | inl c ↦ (_, feed_stop f c)
        | inr c ↦ absurd (omega (arith, rw (o, c, f) at h.open_one))
      ]
    ]
    feed_goes_on a h f (busy, made, inr (n, i, p)) = elim (List-cases a.source) [
      | inl e ↦ (_, feed_end f e)
      | inr (x, source, e) ↦
          (_, feed {x = x} {source = source} f e (omega (arith, h.room_one, ap length p)))
    ]

    -- When the source has ended, the stages end one after the other.
    end_goes_on :
        (a : Flow S) → a.feeding ≡ false → Quiet a.one → Quiet a.two → IsFinished a ⊎ Next a
    unfolding Next
    end_goes_on a f (busy, made, inr (n, i, p)) two = inr (_, move_one (leave i (rw f refl) p))
    end_goes_on a f (busy, made, inl none_idle) (busy', made', two) =
        elim (Bool-cases a.one.is_open) [
          | inl o ↦ inr (_, close_one o (drained a.one none_idle busy made))
          | inr o ↦ elim two [
            | inr (n, i, p) ↦ inr (_, move_two (leave i (rw o refl) p))
            | inl none_idle' ↦ elim (Bool-cases a.two.is_open) [
              | inl t ↦ inr (_, close_two t (drained a.two none_idle' busy' made'))
              | inr t ↦ inl (record { feeding = f; one = o; two = t })
            ]
          ]
        ]

    Quiet-goes_on : (a : Flow S) → IsLive a → Quiet a.two → IsFinished a ⊎ Next a
    unfolding Next
    Quiet-goes_on a h two =
        elim (stage_looks S.first (not a.feeding) (is_some a.error) a.world a.one first) [
          | inl (w, t, m) ↦ inr (_, move_one m)
          | inr (inl (y, made, e)) ↦ inr (send_goes_on a y made h e two)
          | inr (inr one) ↦ elim (Bool-cases a.feeding) [
            | inl f ↦ inr (feed_goes_on a h f one)
            | inr f ↦ end_goes_on a f one two
          ]
        ]

    flow_goes_on : (a : Flow S) → IsLive a → IsFinished a ⊎ Next a
    unfolding Next
    flow_goes_on a h =
        elim (stage_looks S.second (not a.one.is_open) (is_some a.error) a.world a.two second) [
          | inl (w, t, m) ↦ inr (_, move_two m)
          | inr (inl (y, made, e)) ↦ inr (_, send_two {y = y} (send {made = made} (rw e here)))
          | inr (inr two) ↦ Quiet-goes_on a h two
        ]

-- Whatever the goroutines of Write or Read have done, with channels that hold no more than their
-- capacity, they have not blocked each other: they can go on until the group is finished, if there are
-- goroutines of both stages and the calls of both stages return, with or without an error.
pub flow_finishes :
    (S : Stages) (w : S.World) (source : List S.In) (failure : Option Error) (jobs_one jobs_two : ℕ)
    (a : Flow S)
    → 0 < jobs_one
    → 0 < jobs_two
    → Answers S.first
    → Answers S.second
    → Runs (Step S) (start S w source failure jobs_one jobs_two) a
    → (last : Flow S) × Runs (Step S) a last × IsFinished last
unfolding Next
flow_finishes S w source failure jobs_one jobs_two a some_one some_two first second run =
    let live =
      Runs-keep IsLive (Step-IsLive S) (start S w source failure jobs_one jobs_two) a run
        (start-IsLive S w source failure jobs_one jobs_two some_one some_two) in
    Runs-finish_kept (Step S) flow_work (Step-flow_work S) IsLive IsFinished (Step-IsLive S)
      (λ b h. flow_goes_on S first second b h) a live
