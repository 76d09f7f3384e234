-- ===== src/Storage/Replicated/Checking.antt =====
-- client/datastor/pipeline/storage/replicated.go: CheckChunk.
use stor.Base.{
  ==_iff, ℕ, zero, suc, ◌+◌, ◌<◌, ◌≤◌, ◌≡◌, inl, inr, ◌↔◌, refl, ap, Bool, true, false, ◌==◌,
  Bool-cases, arith, length, count_if, ok, pos→==_false, ok-injective,
}
use stor.Cluster.Types.{Cluster}
use stor.Storage.Types.{ChunkConfig, invalid, optimal}
use stor.Storage.Distributed.{is_valid_object}
use stor.Storage.Replicated.{count_results, status_for, check_chunk}

not_yet : (found n : ℕ) → found < n → (found + 1 == n) ≡ false → found + 1 < n
not_yet found n h e = ground arith

-- The loop over the results compares their number with the number of replicas.
count_results-optimal_iff :
    (n results found : ℕ)
    → found < n
    → (count_results n results found ≡ optimal) ↔ (n ≤ found + results)
unfolding count_results
count_results-optimal_iff n zero found h = ground arith
count_results-optimal_iff n (suc results) found h = elim (Bool-cases (found + 1 == n)) [
  | inl e ↦
      rw e (λ _. let last : found + 1 ≡ n = (==_iff (found + 1) n).0 e in omega arith, λ _. refl)
  | inr e ↦
      let more = count_results-optimal_iff n results (found + 1) (not_yet found n h e) in
      rw e (λ o. let k = more.0 o in omega (arith, k), λ k. more.1 (omega (arith, k)))
]

count_results-invalid_iff :
    (n results found : ℕ)
    → found < n
    → (count_results n results found ≡ invalid) ↔ (found + results ≡ 0)
unfolding count_results
count_results-invalid_iff n zero found h = ground arith
count_results-invalid_iff n (suc results) found h = elim (Bool-cases (found + 1 == n)) [
  | inl e ↦ rw e (λ o. absurd (cc), λ k. absurd (omega (arith, k)))
  | inr e ↦
      let more = count_results-invalid_iff n results (found + 1) (not_yet found n h e) in
      rw e (λ o. let k = more.0 o in absurd (omega (arith, k)), λ k. absurd (omega (arith, k)))
]

status_for-invalid_iff :
    (fast : Bool) (n results : ℕ) → 0 < n → (status_for fast n results ≡ invalid) ↔ (results ≡ 0)
status_for-invalid_iff true n zero h = (λ _. refl, λ _. refl)
status_for-invalid_iff true n (suc results) h = ground arith
status_for-invalid_iff false n results h =
    let slow = count_results-invalid_iff n results 0 h in
    (λ o. let k = slow.0 o in omega (arith, k), λ k. slow.1 (omega (arith, k)))

-- CheckChunk of the replicated storage answers, for a chunk that lists objects: invalid, fast or not,
-- exactly when no object is valid, and, if it is not fast, optimal exactly when at least as many objects
-- are valid as there are to be replicas.
pub replicated_check_lem :
    (C : Cluster) (n : ℕ) (cfg : ChunkConfig) (fast : Bool) (w : C.World)
    → 0 < n
    → 0 < length cfg.objects
    → ((check_chunk C n cfg fast w ≡ ok invalid) ↔ (count_if (is_valid_object C w) cfg.objects ≡ 0))
      × ((check_chunk C n cfg false w ≡ ok optimal)
          ↔ (n ≤ count_if (is_valid_object C w) cfg.objects))
unfolding check_chunk
replicated_check_lem C n cfg fast w h k =
    let results = count_if (is_valid_object C w) cfg.objects in
    let bad = status_for-invalid_iff fast n results h in
    let best = count_results-optimal_iff n results 0 h in
    rw (pos→==_false (length cfg.objects) k) (
      (λ e. bad.0 (ok-injective e), λ e. ap ok (bad.1 e)),
      (
        λ e. let m = best.0 (ok-injective e) in omega (arith, m),
        λ m. ap ok (best.1 (omega (arith, m))),
      ),
    )
