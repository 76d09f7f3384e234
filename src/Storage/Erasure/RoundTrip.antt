-- ===== src/Storage/Erasure/RoundTrip.antt =====
-- Encode and Decode of client/datastor/pipeline/storage/distributed.go: the copy loop, and the contract of the coder.
use mathlib.Core.List.{append_assoc}
use stor.Base.{
  pos→==_false, length-drop, ==_refl, drop_all, length-replicate, false, leb_false→lt,
  drop-append_left, take-append_left, leb→le, true, length-append, Bool, inr, inl, leb, take_all,
  Bool-cases, ℕ, suc, ◌-◌, ◌+◌, ◌<◌, ◌≤◌, ◌≡◌, refl, sym, ap, ◌∙◌, Bytes, List, [], ◌∷◌, ◌++◌,
  arith, take, drop, replicate, length, ok, if◌then◌else◌,
}
use stor.Storage.Erasure.{
  first_length, EncodeReconster, ReedSolomon, split_data, encode, copy_at, join, decode,
}
use stor.Storage.Erasure.Splitting.{
  take_nil, HaveSize, concat, split_data_lem, append_nil, drop_nil,
}

-- What is left of some shards, and how many: the others are empty.
pub data Survives : List Bytes → List Bytes → ℕ → Type 0 where
  none_left : Survives [] [] 0
  lost :
      {part : Bytes} {parts left : List Bytes} {n : ℕ}
      → Survives parts left n
      → Survives (part ∷ parts) ([] ∷ left) n
  kept :
      {part : Bytes} {parts left : List Bytes} {n : ℕ}
      → Survives parts left n
      → Survives (part ∷ parts) (part ∷ left) (suc n)

pub length-Survives :
    {parts left : List Bytes} {n : ℕ} → Survives parts left n → length left ≡ length parts
length-Survives none_left = refl
length-Survives (lost s) = ap suc (length-Survives s)
length-Survives (kept s) = ap suc (length-Survives s)

-- What the coder documents: it keeps the data shards and puts a parity shard in place of each zeroed
-- one, and it restores the data shards from any of them that are as many as the data shards.
pub record IsErasureCode (er : EncodeReconster) (data_count parity_count : ℕ) : Type 0 where
  pub parities : List Bytes → List Bytes
  pub parities_size :
      (size : ℕ) (shards : List Bytes)
      → length shards ≡ data_count
      → HaveSize size shards
      → 0 < size
      → (length (parities shards) ≡ parity_count) × HaveSize size (parities shards)
  pub encodes :
      (size : ℕ) (shards : List Bytes)
      → length shards ≡ data_count
      → HaveSize size shards
      → 0 < size
      → er.encode_matrix (shards ++ replicate parity_count (replicate size 0))
        ≡ ok (shards ++ parities shards)
  pub reconstructs :
      (size : ℕ) (shards left : List Bytes) (n : ℕ)
      → length shards ≡ data_count
      → HaveSize size shards
      → 0 < size
      → Survives (shards ++ parities shards) left n
      → data_count ≤ n
      → (rest : List Bytes) × (er.reconstruct_data left ≡ ok (shards ++ rest))

-- `copy(rest, from)`
abbrev overlay : Bytes → Bytes → Bytes
overlay from rest = take (length rest) from ++ drop (length from) rest

overlay_short :
    (from rest : Bytes)
    → length from < length rest
    → overlay from rest ≡ from ++ drop (length from) rest
overlay_short from rest h = rw (take_all (length rest) from (omega arith)) refl

overlay-append_long :
    (from more rest : Bytes)
    → length rest ≤ length from
    → overlay (from ++ more) rest ≡ overlay from rest
overlay-append_long [] more [] h = drop_nil (length more)
overlay-append_long [] more (y ∷ rest) h = absurd (omega arith)
overlay-append_long (x ∷ from) more [] h = refl
overlay-append_long (x ∷ from) more (y ∷ rest) h =
    ap (◌∷◌ x) (overlay-append_long from more rest (omega arith))

overlay-append_short :
    (from more rest : Bytes)
    → length from < length rest
    → overlay (from ++ more) rest ≡ from ++ overlay more (drop (length from) rest)
overlay-append_short [] more rest h = refl
overlay-append_short (x ∷ from) more [] h = absurd (omega arith)
overlay-append_short (x ∷ from) more (y ∷ rest) h =
    ap (◌∷◌ x) (overlay-append_short from more rest (omega arith))

copy_at-append :
    (done rest from : Bytes) → copy_at (done ++ rest) (length done) from ≡ done ++ overlay from rest
unfolding copy_at
copy_at-append done rest from =
    let left : length (done ++ rest) - length done ≡ length rest =
      omega (arith, length-append done rest) in
    rw
      (
        take-append_left (length done) done rest refl,
        drop-append_left (length done) done rest refl,
        left,
      )
      refl

-- The two cases of an iteration of the loop.
join_step :
    (size : ℕ) (part : Bytes) (parts : List Bytes) (offset : ℕ) (bytes : Bytes) (b : Bool)
    → leb size (offset + length part) ≡ b
    → join size (part ∷ parts) offset bytes ≡ (
        if b
        then copy_at bytes offset part
        else join size parts (offset + length part) (copy_at bytes offset part))
unfolding join
join_step size part parts offset bytes true e =
    ap
      (λ (b : Bool). elim b as (λ _. Bytes) [
        | true ↦ copy_at bytes offset part
        | mathlib.Core.Bool.false ↦
            join size parts (offset + length part) (copy_at bytes offset part)
      ])
      e
join_step size part parts offset bytes mathlib.Core.Bool.false e =
    ap
      (λ (b : Bool). elim b as (λ _. Bytes) [
        | true ↦ copy_at bytes offset part
        | mathlib.Core.Bool.false ↦
            join size parts (offset + length part) (copy_at bytes offset part)
      ])
      e

join_lem :
    (size : ℕ) (parts : List Bytes) (done rest : Bytes)
    → size ≡ length done + length rest
    → join size parts (length done) (done ++ rest) ≡ done ++ overlay (concat parts) rest
join_lem size [] done rest e =
    unfold join in ap (λ xs. done ++ xs) (rw (take_nil (length rest)) refl)
join_lem size (part ∷ parts) done rest e =
    elim (Bool-cases (leb size (length done + length part))) [
      | inl t ↦
          join_step size part parts (length done) (done ++ rest) true t
          ∙ (copy_at-append done rest part
              ∙ ap (λ xs. done ++ xs)
                  (sym (
                    overlay-append_long part (concat parts) rest
                      (omega (arith, leb→le size (length done + length part) t)))))
      | inr f ↦
          let short : length part < length rest =
            omega (arith, leb_false→lt size (length done + length part) f) in
          join_step size part parts (length done) (done ++ rest) false f
          ∙ (ap (λ xs. join size parts (length done + length part) xs)
                (copy_at-append done rest part
                  ∙ (ap (λ xs. done ++ xs) (overlay_short part rest short)
                      ∙ sym (append_assoc done part (drop (length part) rest))))
              ∙ (ap (λ n. join size parts n ((done ++ part) ++ drop (length part) rest))
                    (sym (length-append done part))
                  ∙ (join_lem size parts (done ++ part) (drop (length part) rest)
                        (omega (arith, length-append done part, length-drop (length part) rest))
                      ∙ (append_assoc done part (overlay (concat parts) (drop (length part) rest))
                          ∙ ap (λ xs. done ++ xs)
                              (sym (overlay-append_short part (concat parts) rest short))))))
    ]

-- A buffer is filled with as many bytes of the shards as it is long.
join-fills :
    (size : ℕ) (parts : List Bytes) (bytes tail : Bytes)
    → concat parts ≡ bytes ++ tail
    → length bytes ≡ size
    → join size parts 0 (replicate size 0) ≡ bytes
join-fills size parts bytes tail e h =
    let blank : Bytes = replicate size 0 in
    let filled : length blank ≡ size = length-replicate size 0 in
    let over : drop (length (bytes ++ tail)) blank ≡ [] =
      drop_all (length (bytes ++ tail)) blank (omega (arith, length-append bytes tail)) in
    join_lem size parts [] blank (omega arith)
    ∙ (rw (e, filled, take-append_left size bytes tail h, over) (append_nil bytes))

first_length_lem :
    (size : ℕ) (parts : List Bytes)
    → HaveSize size parts
    → 0 < length parts
    → first_length parts ≡ size
first_length_lem size [] h k = absurd (omega arith)
first_length_lem size (part ∷ parts) h k = h.0

encode_lem :
    (rs : ReedSolomon) (bytes : Bytes) (size : ℕ)
    → 0 < length bytes
    → 0 < rs.data_shard_count
    → HaveSize size (split_data rs bytes)
    → length (split_data rs bytes) ≡ rs.data_shard_count
    → encode rs bytes
      ≡ rs.er.encode_matrix
          (split_data rs bytes ++ replicate rs.parity_shard_count (replicate size 0))
unfolding encode
encode_lem rs bytes size h k sized count =
    rw
      (
        pos→==_false (length bytes) h,
        first_length_lem size (split_data rs bytes) sized (omega arith),
      )
      refl

decode_lem :
    (rs : ReedSolomon) (left shards rest : List Bytes) (bytes tail : Bytes)
    → length left ≡ rs.shard_count
    → length shards ≡ rs.data_shard_count
    → rs.er.reconstruct_data left ≡ ok (shards ++ rest)
    → concat shards ≡ bytes ++ tail
    → decode rs left (length bytes) ≡ ok bytes
unfolding decode
decode_lem rs left shards rest bytes tail n count e whole =
    rw
      (
        n,
        ==_refl rs.shard_count,
        e,
        take-append_left rs.data_shard_count shards rest count,
        join-fills (length bytes) shards bytes tail whole refl,
      )
      refl

-- Encode succeeds on data, with a part for each shard.
pub encode_ok :
    (rs : ReedSolomon) (bytes : Bytes)
    (code : IsErasureCode rs.er rs.data_shard_count rs.parity_shard_count)
    → rs.shard_count ≡ rs.data_shard_count + rs.parity_shard_count
    → 0 < rs.data_shard_count
    → 0 < length bytes
    → (encode rs bytes ≡ ok (split_data rs bytes ++ code.parities (split_data rs bytes)))
      × (length (split_data rs bytes ++ code.parities (split_data rs bytes)) ≡ rs.shard_count)
encode_ok rs bytes code total h k =
    let split = split_data_lem rs bytes h k in
    let shards = split_data rs bytes in
    let others = code.parities_size split.size shards split.count split.sized split.size_pos in
    (
      encode_lem rs bytes split.size k h split.sized split.count
          ∙ code.encodes split.size shards split.count split.sized split.size_pos,
      omega (arith, length-append shards (code.parities shards), split.count, others.0),
    )

-- Encode succeeds on data, and from any of its parts that are at least as many as the data shards,
-- the others being nil, Decode gives the data back, if the coder is an erasure code.
pub decode-encode :
    (rs : ReedSolomon) (bytes : Bytes)
    (code : IsErasureCode rs.er rs.data_shard_count rs.parity_shard_count) (left : List Bytes)
    (n : ℕ)
    → rs.shard_count ≡ rs.data_shard_count + rs.parity_shard_count
    → 0 < rs.data_shard_count
    → 0 < length bytes
    → Survives (split_data rs bytes ++ code.parities (split_data rs bytes)) left n
    → rs.data_shard_count ≤ n
    → (encode rs bytes ≡ ok (split_data rs bytes ++ code.parities (split_data rs bytes)))
      × (decode rs left (length bytes) ≡ ok bytes)
decode-encode rs bytes code left n total h k survives enough =
    let split = split_data_lem rs bytes h k in
    let shards = split_data rs bytes in
    let encoded = encode_ok rs bytes code total h k in
    let (rest, e) =
      code.reconstructs split.size shards left n split.count split.sized split.size_pos survives
        enough in
    (
      encoded.0,
      decode_lem rs left shards rest bytes (replicate split.zeros 0)
          (length-Survives survives ∙ encoded.1) split.count e split.whole,
    )
