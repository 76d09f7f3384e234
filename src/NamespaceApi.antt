-- ===== src/NamespaceApi.antt =====
-- server/api/grpc/namespace_api.go: the handler of the namespace service over a database. The
-- request rates of server/stats, which a rate counter outside the repository keeps, are an argument.
pub mod Counting
use stor.Base.{ℕ, Bytes, some, Result, ok, err, panic}
use stor.Db.Types.{Error, Database, count_keys}
use stor.ObjectApi.{RpcError, database, Metadata, extract_label}

pub record NamespaceResponse : Type 0 where
  pub label : Bytes
  pub read_requests : ℕ
  pub write_requests : ℕ
  pub nr_objects : ℕ

-- The response, once the keys have been counted.
unfoldable pub response_of :
    (Bytes → ℕ × ℕ) → Bytes → Result Error (Unit {0}) × ℕ → Result RpcError NamespaceResponse
response_of rate label (ok _, count) = ok (record {
  label = label;
  read_requests = (rate label).0;
  write_requests = (rate label).1;
  nr_objects = count;
})
response_of rate label (err e, count) = err database
response_of rate label (panic, count) = panic

module _ (D : Database) (rate : Bytes → ℕ × ℕ) where
  -- The prefix of the count is the label itself.
  unfoldable pub get_namespace : Metadata → D.State → Result RpcError NamespaceResponse
  get_namespace md s = elim (extract_label md) [
    | ok label ↦ response_of rate label (count_keys D (some label) s)
    | err e ↦ err e
    | panic ↦ panic
  ]
