-- ===== src/Storage/Replicated/Repairing.antt =====
-- client/datastor/pipeline/storage/replicated.go: RepairChunk, with its write.
use stor.Base.{All, ◌≡◌, List}
use stor.Cluster.Types.{Cluster, ObjectRef}
use stor.Storage.Replicated.{
  found_valid, Finding, finding, sorted_in, sorted_in, found_valid, finding, Finding,
}

module _ (C : Cluster) (w : C.World) where
  abbrev pub AreValid : List ObjectRef → Type 0
  AreValid valids = All (λ o. finding C w o ≡ found_valid) valids
