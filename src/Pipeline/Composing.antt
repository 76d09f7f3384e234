-- ===== src/Pipeline/Composing.antt =====
-- client/datastor/pipeline/async_splitter.go: the goroutine of Read that writes the data in order.
pub mod Order
use stor.Base.{
  ℕ, zero, suc, Bytes, List, [], ◌∷◌, ◌++◌, ◌==◌, if◌then◌else◌, Option, none, some, length,
}
use stor.Pipeline.Numbered.{lookup_number}

-- `expectedIndex`, `buffer`, and what the writer has been given
pub record Composer : Type 0 where
  pub expected : ℕ
  pub buffer : List (ℕ × Bytes)
  pub written : Bytes

-- `for ok { … }`, whose body writes and looks for the next; the fuel is its number of repetitions.
unfoldable pub write_buffered : ℕ → Composer → Option Bytes → Composer
write_buffered fuel s none = s
write_buffered zero s (some bytes) = s
write_buffered (suc fuel) s (some bytes) =
    write_buffered fuel (record s { expected = suc s.expected; written = s.written ++ bytes })
      (lookup_number (suc s.expected) s.buffer)

-- The body of the loop over outputCh. Each repetition of the inner loop but the first uses another entry.
abbrev pub compose_data : Composer → ℕ → Bytes → Composer
compose_data s index bytes =
    if index == s.expected
    then write_buffered (suc (length s.buffer)) s (some bytes)
    else record s { buffer = (index, bytes) ∷ s.buffer }

-- The loop, for the data in the order that is the reverse of their arrival.
unfoldable pub composed : List (ℕ × Bytes) → Composer
composed [] = record { expected = 0; buffer = []; written = [] }
composed ((index, bytes) ∷ earlier) = compose_data (composed earlier) index bytes
