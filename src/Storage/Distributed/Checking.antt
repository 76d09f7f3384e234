-- ===== src/Storage/Distributed/Checking.antt =====
-- CheckChunk of client/datastor/pipeline/storage/distributed.go, and its workers.
pub mod Outcome
use stor.Base.{
  ℕ, zero, suc, ◌+◌, ◌≡◌, List, [], ◌∷◌, Bool, true, false, min, length, Result, ◌>>◌, ok, fail_if,
  not, ◌==◌, Runs,
}
use stor.Cluster.Types.{Cluster, ObjectRef}
use stor.Storage.Types.{Error, unexpected_object_count, ChunkConfig, CheckStatus}
use stor.Storage.Distributed.{EncoderDecoder, is_valid_object, search_object_count, check_status}

-- What is left on requestCh and objectIndexCh, the workers that wait for a request and those that look
-- for a valid object, and the number of results.
pub record Search : Type 0 where
  pub requests : ℕ
  pub pending : List ObjectRef
  pub idle : ℕ
  pub searching : ℕ
  pub found : ℕ

pub data Step (C : Cluster) (w : C.World) : Search → Search → Type 0 where
  -- a request is taken
  request :
      {r i s f : ℕ} {p : List ObjectRef}
      → Step C w
          (record { requests = suc r; pending = p; idle = suc i; searching = s; found = f })
          (record { requests = r; pending = p; idle = i; searching = suc s; found = f })
  -- requestCh is closed
  no_request :
      {i s f : ℕ} {p : List ObjectRef}
      → Step C w
          (record { requests = 0; pending = p; idle = suc i; searching = s; found = f })
          (record { requests = 0; pending = p; idle = i; searching = s; found = f })
  -- a valid object is reported
  hit :
      {r i s f : ℕ} {o : ObjectRef} {p : List ObjectRef}
      → is_valid_object C w o ≡ true
      → Step C w
          (record { requests = r; pending = o ∷ p; idle = i; searching = suc s; found = f })
          (record { requests = r; pending = p; idle = suc i; searching = s; found = suc f })
  -- another object is passed over
  miss :
      {r i s f : ℕ} {o : ObjectRef} {p : List ObjectRef}
      → is_valid_object C w o ≡ false
      → Step C w
          (record { requests = r; pending = o ∷ p; idle = i; searching = suc s; found = f })
          (record { requests = r; pending = p; idle = i; searching = suc s; found = f })
  -- objectIndexCh is closed
  no_object :
      {r i s f : ℕ}
      → Step C w
          (record { requests = r; pending = []; idle = i; searching = suc s; found = f })
          (record { requests = r; pending = []; idle = i; searching = s; found = f })

-- The state in which CheckChunk starts its workers.
unfoldable pub start : EncoderDecoder → ℕ → ChunkConfig → Bool → Search
start dec job_count cfg fast = record {
  requests = search_object_count dec fast;
  pending = cfg.objects;
  idle = min job_count (search_object_count dec fast);
  searching = 0;
  found = 0;
}

-- `group.Wait()` returns when no worker is left.
abbrev pub IsFinished : Search → Type 0
IsFinished s = (s.idle ≡ 0) × (s.searching ≡ 0)

-- CheckChunk, when its workers have found a number of valid objects
unfoldable pub check_chunk : EncoderDecoder → ChunkConfig → Search → Result Error CheckStatus
check_chunk dec cfg last =
    fail_if (not (dec.required == length cfg.objects)) unexpected_object_count
    >> ok (check_status dec last.found)
