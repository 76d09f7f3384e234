-- ===== src/Storage/Erasure/Splitting.antt =====
-- client/datastor/pipeline/storage/distributed.go: padIfNeeded and splitData.
use native.Mathlib.Nat.{mod-lt, mul-div_cancel_left, div-add-mod}
use stor.Base.{
  take_all, inr, ==_iff, inl, ◌==◌, length-replicate, length-append, Bool-cases, length-drop,
  length-take, ℕ, zero, suc, ◌-◌, ◌+◌, ◌*◌, ◌/◌, ◌%◌, ◌<◌, ◌≤◌, ◌≡◌, refl, sym, ap, ◌∙◌, Bytes,
  List, [], ◌∷◌, ◌++◌, arith, take, drop, replicate, length,
}
use stor.Storage.Erasure.{ReedSolomon, get_pad_len, pad_if_needed, chunks, split_data}

-- Every shard has the size.
abbrev pub HaveSize : ℕ → List Bytes → Type 0
HaveSize size [] = Unit
HaveSize size (part ∷ parts) = (length part ≡ size) × HaveSize size parts

abbrev pub concat : List Bytes → Bytes
concat [] = []
concat (part ∷ parts) = part ++ concat parts

pub take_nil : (n : ℕ) → ◌≡◌ {A = Bytes} (take n []) []
take_nil zero = refl
take_nil (suc n) = refl

pub drop_nil : (n : ℕ) → ◌≡◌ {A = Bytes} (drop n []) []
drop_nil zero = refl
drop_nil (suc n) = refl

take_add : (m n k : ℕ) (xs : Bytes) → k ≡ m + n → take k xs ≡ take m xs ++ take n (drop m xs)
take_add zero n k xs e = let h : k ≡ n = omega arith in rw h refl
take_add (suc m) n k [] e = rw (take_nil k, take_nil n) refl
take_add (suc m) n zero (x ∷ xs) e = absurd (omega arith)
take_add (suc m) n (suc k) (x ∷ xs) e = ap (◌∷◌ x) (take_add m n k xs (omega arith))

drop_add : (m n k : ℕ) (xs : Bytes) → k ≡ m + n → drop n (drop m xs) ≡ drop k xs
drop_add zero n k xs e = let h : k ≡ n = omega arith in rw h refl
drop_add (suc m) n k [] e = rw (drop_nil k, drop_nil n) refl
drop_add (suc m) n zero (x ∷ xs) e = absurd (omega arith)
drop_add (suc m) n (suc k) (x ∷ xs) e = drop_add m n k xs (omega arith)

piece_size : (i size : ℕ) → (i + 1) * size - i * size ≡ size
piece_size i size = omega arith

next_piece : (i size : ℕ) → suc i * size ≡ i * size + size
next_piece i size = omega arith

more_pieces : (n size : ℕ) → suc n * size ≡ size + n * size
more_pieces n size = omega arith

concat-chunks :
    (size n : ℕ) (xs : Bytes) (i : ℕ)
    → concat (chunks size n xs i) ≡ take (n * size) (drop (i * size) xs)
unfolding chunks
concat-chunks size zero xs i = let e : 0 * size ≡ 0 = omega arith in rw e refl
concat-chunks size (suc n) xs i =
    rw (piece_size i size, concat-chunks size n xs (suc i))
      (rw (sym (drop_add (i * size) size (suc i * size) xs (next_piece i size)))
        (sym (take_add size (n * size) (suc n * size) (drop (i * size) xs) (more_pieces n size))))

length-chunks : (size n : ℕ) (xs : Bytes) (i : ℕ) → length (chunks size n xs i) ≡ n
unfolding chunks
length-chunks size zero xs i = refl
length-chunks size (suc n) xs i = ap suc (length-chunks size n xs (suc i))

chunks-HaveSize :
    (size n : ℕ) (xs : Bytes) (i : ℕ)
    → (i + n) * size ≤ length xs
    → HaveSize size (chunks size n xs i)
unfolding chunks
chunks-HaveSize size zero xs i h = tt
chunks-HaveSize size (suc n) xs i h =
    let bound : i * size + size ≤ length xs = omega arith in
    (
      rw (piece_size i size)
          (omega (arith, length-take size (drop (i * size) xs), length-drop (i * size) xs)),
      chunks-HaveSize size n xs (suc i) (omega arith),
    )

positive_product : (d : ℕ) → 0 < d → 0 < d * 256
positive_product d h = omega arith

whole_blocks : (d q : ℕ) → d * 256 * q ≡ d * (256 * q)
whole_blocks d q = omega arith

one_more_block :
    (d q n r : ℕ) → n ≡ d * 256 * q + r → r < d * 256 → n + (d * 256 - r) ≡ d * (256 * suc q)
one_more_block d q n r e h = omega arith

-- Padding fills a number of blocks of 256 bytes for each data shard.
get_pad_len_lem :
    (rs : ReedSolomon) (n : ℕ)
    → 0 < rs.data_shard_count
    → (blocks : ℕ) × (n + get_pad_len rs n ≡ rs.data_shard_count * (256 * blocks))
unfolding get_pad_len
get_pad_len_lem rs n h =
    let d = rs.data_shard_count in
    let m = d * 256 in
    let q = n / m in
    let r = n % m in
    let parts : m * q + r ≡ n = div-add-mod n m in
    elim (Bool-cases (r == 0)) [
      | inl e ↦ (q, rw e (let z : r ≡ 0 = (==_iff r 0).0 e in omega (arith, whole_blocks d q)))
      | inr e ↦ (suc q, rw e (one_more_block d q n r (sym parts) (mod-lt n (positive_product d h))))
    ]

pub append_nil : (xs : Bytes) → xs ++ [] ≡ xs
append_nil [] = refl
append_nil (x ∷ xs) = ap (◌∷◌ x) (append_nil xs)

pad_if_needed_lem :
    (rs : ReedSolomon) (bytes : Bytes)
    → pad_if_needed rs bytes ≡ bytes ++ replicate (get_pad_len rs (length bytes)) 0
unfolding pad_if_needed
pad_if_needed_lem rs bytes = elim (Bool-cases (get_pad_len rs (length bytes) == 0)) [
  | inl e ↦ rw e (rw ((==_iff (get_pad_len rs (length bytes)) 0).0 e) (sym (append_nil bytes)))
  | inr e ↦ rw e refl
]

blocks_pos : (d blocks n z : ℕ) → n + z ≡ d * (256 * blocks) → 0 < n → 0 < 256 * blocks
blocks_pos d zero n z e h = absurd (omega arith)
blocks_pos d (suc b) n z e h = omega arith

-- What splitData makes of some bytes.
pub record Split (rs : ReedSolomon) (bytes : Bytes) : Type 0 where
  pub size : ℕ
  pub zeros : ℕ
  pub size_pos : 0 < size
  pub count : length (split_data rs bytes) ≡ rs.data_shard_count
  pub sized : HaveSize size (split_data rs bytes)
  pub whole : concat (split_data rs bytes) ≡ bytes ++ replicate zeros 0

pub split_data_lem :
    (rs : ReedSolomon) (bytes : Bytes) → 0 < rs.data_shard_count → 0 < length bytes → Split rs bytes
unfolding split_data
split_data_lem rs bytes h k =
    let d = rs.data_shard_count in
    let zeros = get_pad_len rs (length bytes) in
    let (blocks, e) = get_pad_len_lem rs (length bytes) h in
    let size = 256 * blocks in
    let padded = pad_if_needed rs bytes in
    let total : length padded ≡ d * size =
      ap length (pad_if_needed_lem rs bytes)
      ∙ (length-append bytes (replicate zeros 0)
          ∙ (ap (λ z. length bytes + z) (length-replicate zeros 0) ∙ e)) in
    let quotient : length padded / d ≡ size = rw total (mul-div_cancel_left size h) in
    let from_start : take (d * size) (drop (0 * size) padded) ≡ padded =
      let z : 0 * size ≡ 0 = omega arith in rw z (take_all (d * size) padded (omega arith)) in
    record {
      size = size;
      zeros = zeros;
      size_pos = blocks_pos d blocks (length bytes) zeros e k;
      count = length-chunks (length padded / d) d padded 0;
      sized = rw quotient (chunks-HaveSize size d padded 0 (omega arith));
      whole = rw quotient (concat-chunks size d padded 0 ∙ from_start ∙ pad_if_needed_lem rs bytes);
    }
