-- ===== src/Storage/Distributed/Writing/Progress.antt =====
-- WriteChunk of client/datastor/pipeline/storage/distributed.go: the next step of its workers.
use stor.Base.{
  List-cases, ℕ-cases, Runs-finish, ℕ, suc, ◌≡◌, ◌⊎◌, inl, inr, Bytes, List, ◌∷◌, ok, err, Pick,
  here, Runs,
}
use stor.Cluster.Types
use stor.Cluster.Types.{Cluster}
use stor.Storage.Distributed.Writing.{
  Part, Attempt, Stored, Writer, Step, take_part, no_part, take_shard, no_shard, stored, refused,
  return_object, IsFinished,
}
use stor.Storage.Distributed.Writing.Ending.{work, Step-work}

-- A call of CreateObject answers.
abbrev pub AlwaysAnswers : Cluster → Type 0
AlwaysAnswers C =
    (id bytes : Bytes) (w : C.World)
    → ((key : Bytes) × (w' : C.World) × (C.create_object id bytes w ≡ (ok key, w')))
      ⊎ ((e : Types.Error) × (w' : C.World) × (C.create_object id bytes w ≡ (err e, w')))

module _ (C : Cluster) (answers : AlwaysAnswers C) (a : Writer C) where
  abbrev Next : Type 0
  Next = (b : Writer C) × Step C a b

  idle_step : (n : ℕ) → a.idle ≡ suc n → Next
  idle_step n e = elim (List-cases a.pending) [
    | inl none_left ↦ (_, no_part (inl none_left) e)
    | inr (part, pending, f) ↦ (_, take_part f e)
  ]

  waiting_step : (part : Part) (waiting : List Part) → a.waiting ≡ part ∷ waiting → Next
  waiting_step part waiting e =
      let pick : Pick part a.waiting waiting = rw e here in
      elim (List-cases a.shards) [
        | inl none_left ↦ (_, no_shard (inl none_left) pick)
        | inr (id, shards, f) ↦ (_, take_shard f pick)
      ]

  writing_step : (attempt : Attempt) (writing : List Attempt) → a.writing ≡ attempt ∷ writing → Next
  writing_step (part, id) writing e =
      let pick : Pick (part, id) a.writing writing = rw e here in
      elim (answers id part.1 a.world) [
        | inl (key, w', f) ↦ (_, stored pick f)
        | inr (x, w', f) ↦ (_, refused pick f)
      ]

  holding_step : (object : Stored) (holding : List Stored) → a.holding ≡ object ∷ holding → Next
  holding_step object holding e =
      let pick : Pick object a.holding holding = rw e here in (_, return_object pick)

  next_step_lem : IsFinished a ⊎ Next
  next_step_lem = elim (ℕ-cases a.idle) [
    | inr (n, e) ↦ inr (idle_step n e)
    | inl i ↦ elim (List-cases a.waiting) [
      | inr (part, waiting, e) ↦ inr (waiting_step part waiting e)
      | inl w ↦ elim (List-cases a.writing) [
        | inr (attempt, writing, e) ↦ inr (writing_step attempt writing e)
        | inl r ↦ elim (List-cases a.holding) [
          | inr (object, holding, e) ↦ inr (holding_step object holding e)
          | inl h ↦ inl (i, w, r, h)
        ]
      ]
    ]
  ]

-- In whatever state the workers of WriteChunk are, they are not stuck: they can go on until none of them
-- is left, if the shards answer.
pub write_finishes :
    (C : Cluster) (a : Writer C)
    → AlwaysAnswers C
    → (last : Writer C) × Runs (Step C) a last × IsFinished last
write_finishes C a answers =
    Runs-finish (Step C) work (Step-work C) IsFinished (next_step_lem C answers) a
