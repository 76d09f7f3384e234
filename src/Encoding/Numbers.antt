-- ===== src/Encoding/Numbers.antt =====
-- What the buffers of server/encoding/buffer.go do with one number, under encoding/binary.
use stor.Base.{
  ℕ, ◌+◌, ◌-◌, ◌≤◌, ◌<◌, ◌≡◌, Bytes, [], ◌++◌, arith, length, drop, ok, put_le, get_le,
  length-put_le, take-append_left, drop-append_left, drop_all,
}
use mathlib.Core.List.{append-nil}
use stor.Encoding.Buffer.{WriteBuffer, write, binary_write}
use stor.Encoding.{write_number, read_number, open_view}

-- A write that fits goes past what it has written.
pub binary_write_lem :
    (k v : ℕ) (zab : WriteBuffer)
    → 0 < k
    → k + zab.offset ≤ zab.len
    → binary_write k v zab
      ≡ ok (record {
        done = zab.done ++ put_le k v;
        buf = drop k zab.buf;
        len = zab.len;
        offset = zab.offset + k;
      })
unfolding write
binary_write_lem k v zab h r = unfold binary_write in ground (arith, length-put_le k v)

pub write_number_lem :
    (k v : ℕ) (view : Bytes) → 0 < k → length view ≡ k → write_number k v view ≡ ok (put_le k v)
unfolding write_number
write_number_lem k v view h r =
    ground (arith, length-put_le k v, drop_all k view (omega arith), append-nil (put_le k v))

pub read_number_lem :
    (k n : ℕ) (p rest : Bytes)
    → 0 < k
    → length p ≡ k
    → k ≤ n
    → read_number k (record { buf = p ++ rest; len = n })
      ≡ ok (get_le p, record { buf = rest; len = n - k })
unfolding read_number
read_number_lem k n p rest h r s =
    ground (arith, take-append_left k p rest r, drop-append_left k p rest r)

pub open_view_lem :
    (view : Bytes)
    → 0 < length view
    → open_view view ≡ ok (record { buf = view; len = length view })
unfolding open_view
open_view_lem view h = ground arith

-- A number read from a view that holds just that number.
pub read_number_exact :
    (k : ℕ) (p : Bytes)
    → 0 < k
    → length p ≡ k
    → read_number k (record { buf = p; len = length p })
      ≡ ok (get_le p, record { buf = []; len = length p - k })
read_number_exact k p h r = rw append-nil at (read_number_lem k (length p) p [] h r (omega arith))
