-- ===== src/Pipeline/Collecting/Order.antt =====
-- client/datastor/pipeline/async_splitter.go: the chunks that the collecting goroutine of Write returns.
use stor.Base.{
  ℕ-cases, ◌≢◌, ltb, ◌∙◌, ℕ, suc, ◌+◌, ◌*◌, ◌-◌, ◌<◌, ◌≤◌, ◌≡◌, ◌⊎◌, inl, inr, refl, List, [], ◌∷◌,
  Bool, true, false, not, leb, leb_false→lt, leb→le, ◌==◌, ==_iff, ==_refl, if◌then◌else◌, some,
  length, replicate, set, take, get_elem?, Bool-cases, ok, panic, ◌>>◌, fail_if, arith, All,
  length-append, length-replicate, length-set, length-take,
}
use stor.Cluster.Types.{Chunk}
use stor.Pipeline.Types.{incomplete}
use stor.Pipeline.Numbered.{get_elem?-set, get_elem?-append, get_elem?-take, get_elem?-lt}
use stor.Pipeline.Workers.Counting.{count}
use stor.Pipeline.Collecting.{
  Collector, empty_chunk, grown, collect_chunk, collect_chunks, collected,
}

grown-length :
    (buffer : List Chunk) (index : ℕ)
    → 0 < length buffer
    → (index < length (grown buffer index)) × (length buffer ≤ length (grown buffer index))
grown-length buffer index h = elim (Bool-cases (leb (length buffer) index)) [
  | inl t ↦
      let size = index + length buffer * 2 in
      let n = length-append buffer (replicate (size - length buffer) empty_chunk) in
      let m = length-replicate (size - length buffer) empty_chunk in
      let le = leb→le (length buffer) index t in
      rw t (omega (arith, n, m, le), omega (arith, n, m, le))
  | inr f ↦ rw f (leb_false→lt (length buffer) index f, omega arith)
]

grown-get :
    (buffer : List Chunk) (index i : ℕ) (c : Chunk)
    → get_elem? buffer i ≡ some c
    → get_elem? (grown buffer index) i ≡ some c
grown-get buffer index i c e = elim (Bool-cases (leb (length buffer) index)) [
  | inl t ↦ rw t (
      get_elem?-append buffer (replicate (index + length buffer * 2 - length buffer) empty_chunk) i
        (get_elem?-lt buffer i c e)
      ∙ e)
  | inr f ↦ rw f e
]

-- What the loop knows after the arrivals.
record Collects (Q : ℕ × Chunk → Type 0) (arrivals : List (ℕ × Chunk)) (s : Collector)
    : Type 0 where
  room : 0 < length s.buffer
  counted : s.received_count ≡ length arrivals
  placed :
      (i : ℕ)
      → 0 < count i arrivals
      → (i < s.size) × (c : Chunk) × (get_elem? s.buffer i ≡ some c) × Q (i, c)
  last : (s.size ≡ 0) ⊎ ((m : ℕ) × (s.size ≡ suc m) × (0 < count m arrivals))

abbrev after : Collector → ℕ → Chunk → Collector
after s index chunk = record {
  buffer = set (grown s.buffer index) index chunk;
  received_count = suc s.received_count;
  size = if leb s.size index then suc index else s.size;
}

module _ (Q : ℕ × Chunk → Type 0) (s : Collector) (arrivals : List (ℕ × Chunk)) (index : ℕ)
    (chunk : Chunk) (q : Q (index, chunk)) (h : Collects Q arrivals s) where
  placed_after :
      (i : ℕ)
      → 0 < count i ((index, chunk) ∷ arrivals)
      → (i < (after s index chunk).size)
        × (c : Chunk) × (get_elem? (after s index chunk).buffer i ≡ some c)
        × Q (i, c)
  placed_after i p =
      let at =
        get_elem?-set (grown s.buffer index) index i chunk (grown-length s.buffer index h.room).0 in
      elim (Bool-cases (index == i)) [
        | inl t ↦
            let same : index ≡ i = (==_iff index i).0 t in
            (ground (arith, same), chunk, rw t at at, rw same at q)
        | inr f ↦
            let (le, c, e, r) = h.placed i (omega (arith, rw f at p)) in
            (ground (arith, le), c, (rw f at at) ∙ grown-get s.buffer index i c e, r)
      ]

  last_after :
      ((after s index chunk).size ≡ 0)
      ⊎ ((m : ℕ) × ((after s index chunk).size ≡ suc m) × (0 < count m ((index, chunk) ∷ arrivals)))
  last_after = elim (Bool-cases (leb s.size index)) [
    | inl t ↦ inr (index, rw t refl, rw (==_refl index) (omega arith))
    | inr f ↦ elim h.last [
      | inl e ↦ absurd (omega (arith, leb_false→lt s.size index f, e))
      | inr (m, e, p) ↦ inr (m, rw f e, omega (arith, p))
    ]
  ]

  collect_chunk-Collects :
      (collect_chunk s index chunk ≡ ok (after s index chunk))
      × Collects Q ((index, chunk) ∷ arrivals) (after s index chunk)
  collect_chunk-Collects =
      let lens = grown-length s.buffer index h.room in
      let in_bounds : leb (length (grown s.buffer index)) index ≡ false = ground (arith, lens.0) in
      (
        rw in_bounds refl,
        record {
          room = omega (arith, h.room, lens.1, length-set (grown s.buffer index) index chunk);
          counted = omega (arith, h.counted);
          placed = placed_after;
          last = last_after;
        },
      )

collect_chunks-Collects :
    (Q : ℕ × Chunk → Type 0) (jobs : ℕ) (arrivals : List (ℕ × Chunk))
    → 0 < jobs
    → All Q arrivals
    → (s : Collector) × (collect_chunks jobs arrivals ≡ ok s) × Collects Q arrivals s
unfolding collect_chunks
collect_chunks-Collects Q jobs [] some_job q = (
  _,
  refl,
  record {
    room = omega (arith, length-replicate jobs empty_chunk);
    counted = refl;
    placed = λ i p. absurd (omega arith);
    last = inl refl;
  },
)
collect_chunks-Collects Q jobs ((index, chunk) ∷ earlier) some_job q =
    let (s, e, h) = collect_chunks-Collects Q jobs earlier some_job q.1 in
    let (f, k) = collect_chunk-Collects Q s earlier index chunk q.0 h in (_, rw e f, k)

All-trivial : {A : Type 0} (xs : List A) → All (λ (x : A). Unit {0}) xs
All-trivial [] = tt
All-trivial (x ∷ xs) = (tt, All-trivial xs)

checked-ne-panic :
    (b : Bool) (chunks : List Chunk) → (fail_if (not b) incomplete >> ok chunks) ≢ panic
checked-ne-panic true chunks e = cc
checked-ne-panic false chunks e = cc

-- In whatever order chunks arrive at the collecting goroutine of Write, and with whatever indices, it
-- never writes out of the bounds of the slice that it grows, which has room for one chunk at least.
pub collected-ne-panic :
    (jobs : ℕ) (arrivals : List (ℕ × Chunk)) → 0 < jobs → collected jobs arrivals ≢ panic
unfolding collected
collected-ne-panic jobs arrivals some_job =
    let (s, e, h) =
      collect_chunks-Collects (λ x. Unit {0}) jobs arrivals some_job (All-trivial arrivals) in
    rw e (checked-ne-panic (s.received_count == s.size) (take s.size s.buffer))

module _ (Q : ℕ × Chunk → Type 0) (n : ℕ) (arrivals : List (ℕ × Chunk))
    (once : (i : ℕ) → count i arrivals ≡ (if ltb i n then 1 else 0)) where
  arrived : (i : ℕ) → i < n → 0 < count i arrivals
  arrived i h = ground (arith, once i)

  below_of_arrived : (i : ℕ) → 0 < count i arrivals → i < n
  below_of_arrived i h = ground (arith, once i)

  all_placed : (s : Collector) → Collects Q arrivals s → (s.size ≡ n) × (n ≤ length s.buffer)
  all_placed s h = elim (ℕ-cases n) [
    | inl z ↦ elim h.last [
      | inl e ↦ (omega (arith, e, z), omega (arith, z))
      | inr (m, e, p) ↦ absurd (omega (arith, below_of_arrived m p, z))
    ]
    | inr (k, z) ↦
        let (le, c, e, r) = h.placed k (arrived k (omega (arith, z))) in
        let room = get_elem?-lt s.buffer k c e in
        elim h.last [
          | inl f ↦ absurd (omega (arith, le, f))
          | inr (m, f, p) ↦ (omega (arith, le, below_of_arrived m p, f, z), omega (arith, room, z))
        ]
  ]

  -- The chunks of the numbers below n, each of which has arrived once, come out in order.
  pub collected_lem :
      (jobs : ℕ)
      → 0 < jobs
      → All Q arrivals
      → length arrivals ≡ n
      → (chunks : List Chunk) × (collected jobs arrivals ≡ ok chunks)
        × (length chunks ≡ n)
        × ((i : ℕ) → i < n → (c : Chunk) × (get_elem? chunks i ≡ some c) × Q (i, c))
  unfolding collected
  collected_lem jobs some_job q len =
      let (s, e, h) = collect_chunks-Collects Q jobs arrivals some_job q in
      let (full, room) = all_placed s h in
      let test : (s.received_count == s.size) ≡ true =
        (==_iff s.received_count s.size).1 (omega (arith, h.counted, len, full)) in
      (
        take s.size s.buffer,
        rw e (rw test refl),
        omega (arith, length-take s.size s.buffer, full, room),
        λ i lt.
            let (le, c, g, r) = h.placed i (arrived i lt) in
            (c, get_elem?-take s.size s.buffer i le ∙ g, r),
      )
