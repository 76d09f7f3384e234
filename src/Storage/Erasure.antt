-- ===== src/Storage/Erasure.antt =====
-- client/datastor/pipeline/storage/distributed.go: ReedSolomonEncoderDecoder, which cuts data into
-- shards, around the coder of github.com/templexxx/reedsolomon, which is a parameter. Counts and sizes
-- are natural numbers.
pub mod Splitting
pub mod RoundTrip
use stor.Base.{
  ℕ, zero, suc, ◌-◌, ◌+◌, ◌*◌, ◌/◌, ◌%◌, Bytes, List, [], ◌∷◌, ◌++◌, Bool, true, false, ltb, leb,
  ◌==◌, not, if◌then◌else◌, take, drop, replicate, length, Result, ok, err, ◌>>=◌, ◌>>◌, fail_if,
}
use stor.Storage.Types.{
  Error, too_few_data_shards, too_few_parity_shards, no_data, unexpected_parts,
}

-- reedsolomon.EncodeReconster: both calls fill the matrix that they are given.
pub record EncodeReconster : Type 0 where
  pub encode_matrix : List Bytes → Result Error (List Bytes)
  pub reconstruct_data : List Bytes → Result Error (List Bytes)

pub record ReedSolomon : Type 0 where
  pub data_shard_count : ℕ
  pub parity_shard_count : ℕ
  pub shard_count : ℕ
  pub er : EncodeReconster

-- NewReedSolomonEncoderDecoder, where `new` is reedsolomon.New
unfoldable pub new_reed_solomon :
    (ℕ → ℕ → Result Error EncodeReconster) → ℕ → ℕ → Result Error ReedSolomon
new_reed_solomon new data_count parity_count =
    fail_if (ltb data_count 1) too_few_data_shards
    >> (fail_if (ltb parity_count 1) too_few_parity_shards
        >> (new data_count parity_count >>= λ er. ok (record {
          data_shard_count = data_count;
          parity_shard_count = parity_count;
          shard_count = data_count + parity_count;
          er = er;
        })))

-- getPadLen
unfoldable pub get_pad_len : ReedSolomon → ℕ → ℕ
get_pad_len rs data_len =
    let max_pad_len = rs.data_shard_count * 256 in
    (let remainder = data_len % max_pad_len in
      (if remainder == 0 then 0 else max_pad_len - remainder))

-- padIfNeeded
unfoldable pub pad_if_needed : ReedSolomon → Bytes → Bytes
pad_if_needed rs bytes =
    let pad_len = get_pad_len rs (length bytes) in
    (if pad_len == 0 then bytes else bytes ++ replicate pad_len 0)

-- `chunks[i] = data[i*chunkSize : (i+1)*chunkSize]` for `n` indices from `i` on
unfoldable pub chunks : ℕ → ℕ → Bytes → ℕ → List Bytes
chunks chunk_size zero bytes i = []
chunks chunk_size (suc n) bytes i =
    take ((i + 1) * chunk_size - i * chunk_size) (drop (i * chunk_size) bytes)
    ∷ chunks chunk_size n bytes (suc i)

-- splitData
unfoldable pub split_data : ReedSolomon → Bytes → List Bytes
split_data rs bytes =
    let padded = pad_if_needed rs bytes in
    (chunks (length padded / rs.data_shard_count) rs.data_shard_count padded 0)

-- `len(parts[0])`: the panic of an empty `parts` is kept out by the guard on the shard count
abbrev pub first_length : List Bytes → ℕ
first_length [] = 0
first_length (part ∷ parts) = length part

-- Encode
unfoldable pub encode : ReedSolomon → Bytes → Result Error (List Bytes)
encode rs bytes =
    fail_if (length bytes == 0) no_data
    >> (let parts = split_data rs bytes in
        (rs.er.encode_matrix
          (parts ++ replicate rs.parity_shard_count (replicate (first_length parts) 0))))

-- `copy(data[offset:], src)`
unfoldable pub copy_at : Bytes → ℕ → Bytes → Bytes
copy_at bytes offset src =
    take offset bytes ++ (take (length bytes - offset) src ++ drop (length src) (drop offset bytes))

-- The loop of Decode, over the data shards.
unfoldable pub join : ℕ → List Bytes → ℕ → Bytes → Bytes
join data_size [] offset bytes = bytes
join data_size (part ∷ parts) offset bytes = elim (leb data_size (offset + length part)) [
  | true ↦ copy_at bytes offset part
  | false ↦ join data_size parts (offset + length part) (copy_at bytes offset part)
]

-- Decode
unfoldable pub decode : ReedSolomon → List Bytes → ℕ → Result Error Bytes
decode rs parts data_size =
    fail_if (not (length parts == rs.shard_count)) unexpected_parts
    >> (rs.er.reconstruct_data parts >>= λ whole.
        ok (join data_size (take rs.data_shard_count whole) 0 (replicate data_size 0)))

-- MinimumValidShardCount
abbrev pub minimum_valid_shard_count : ReedSolomon → ℕ
minimum_valid_shard_count rs = rs.data_shard_count

-- RequiredShardCount
abbrev pub required_shard_count : ReedSolomon → ℕ
required_shard_count rs = rs.shard_count

-- What encoding unfolds to.
unfoldable pub coding : Unit {0}
unfolding encode decode split_data pad_if_needed get_pad_len chunks join copy_at
coding = tt
