-- ===== src/Db/Keys.antt =====
-- server/db/keys.go: the keys under which the server stores its values. A nil argument is a panic.
pub mod Scopes
use stor.Base.{ℕ, ◌%◌, ◌^◌, Bytes, ◌++◌, ◌∷◌, [], none, some, Result, ok, panic, put_le, codes}
use stor.Db.Types.{Error, Slice}

-- The last eight bytes are the sequence, a uint64.
unfoldable pub scoped_sequence_key : Slice → ℕ → Result Error Bytes
scoped_sequence_key none sequence = panic
scoped_sequence_key (some scope_key) sequence = ok (scope_key ++ put_le 8 sequence)

unfoldable pub data_key : Slice → Slice → Result Error Bytes
data_key none gen_key = panic
data_key (some label) none = panic
data_key (some label) (some gen_key) = ok (b'd' ∷ b':' ∷ (label ++ (b':' ∷ gen_key)))

unfoldable pub data_scope_key : Slice → Result Error Bytes
data_scope_key none = panic
data_scope_key (some label) = ok (b'd' ∷ b':' ∷ (label ++ (b':' ∷ [])))

unfoldable pub namespace_key : Slice → Result Error Bytes
namespace_key none = panic
namespace_key (some label) = ok (b'@' ∷ b':' ∷ label)

-- The key of a value that no listing by a prefix of the server's shows.
unfoldable pub unlisted_key : Slice → Result Error Bytes
unlisted_key none = panic
unlisted_key (some key) = ok (b'_' ∷ b'_' ∷ key)

abbrev pub store_stats_key : Bytes
store_stats_key = codes "$"
