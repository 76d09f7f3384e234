-- ===== src/Encoding/Buffer.antt =====
-- server/encoding/buffer.go: the reader and the writer over a slice that encoding/binary is
-- given. A write changes the memory behind the slice: `done` is the part of that memory that the
-- buffer has gone past, and `done ++ buf` is the whole of it.
use stor.Base.{
  ℕ, ◌+◌, ◌-◌, Bytes, [], ◌++◌, ltb, ◌==◌, Bool, if◌then◌else◌, length, take, drop, put_le, get_le,
  Result, ok, err, panic_if, ◌>>=◌, ◌>>◌,
}

-- The errors of io.ReadFull.
pub data IoError : Type 0 where
  eof unexpected_eof : IoError

pub record WriteBuffer : Type 0 where
  pub done : Bytes
  pub buf : Bytes
  pub len : ℕ
  pub offset : ℕ

pub record ReadBuffer : Type 0 where
  pub buf : Bytes
  pub len : ℕ

-- newZeroAllocWriteBuffer
unfoldable pub new_write_buffer : Bytes → Result IoError WriteBuffer
new_write_buffer buf = do
  panic_if (length buf == 0)
  ok (record { done = []; buf = buf; len = length buf; offset = 0 })

-- (zeroAllocWriteBuffer).Write
unfoldable pub write : Bytes → WriteBuffer → Result IoError WriteBuffer
write p zab = do
  panic_if (length p == 0)
  panic_if (ltb zab.len (length p + zab.offset))
  ok (record {
    done = zab.done ++ p;
    buf = drop (length p) zab.buf;
    len = zab.len;
    offset = zab.offset + length p;
  })

-- binary.Write of an unsigned integer of `k` bytes
unfoldable pub binary_write : ℕ → ℕ → WriteBuffer → Result IoError WriteBuffer
unfolding write put_le
binary_write k v zab = write (put_le k v) zab

-- The memory behind the slice that the buffer was made for.
abbrev pub memory : WriteBuffer → Bytes
memory zab = zab.done ++ zab.buf

-- newZeroAllocReadBuffer
unfoldable pub new_read_buffer : Bytes → Result IoError ReadBuffer
new_read_buffer buf = do panic_if (length buf == 0); ok (record { buf = buf; len = length buf })

abbrev advance : ℕ → ReadBuffer → ReadBuffer
advance n zab = record { buf = drop n zab.buf; len = zab.len - n }

-- (zeroAllocReadBuffer).Read into a slice of `n` bytes: what is copied, and the new state
unfoldable pub read : ℕ → ReadBuffer → Result IoError (Bytes × ReadBuffer)
read n zab = do
  panic_if (n == 0)
  if zab.len == 0
      then err eof
      else ok (take n zab.buf, advance (if ltb zab.len n then zab.len else n) zab)

-- io.ReadFull of `n` bytes. A Read that comes short has emptied the buffer, and the next one ends
-- with EOF, which is reported as an unexpected one.
unfoldable pub read_full : ℕ → ReadBuffer → Result IoError (Bytes × ReadBuffer)
unfolding read
read_full n zab = do
  (p, zab') ← read n zab
  if ltb (length p) n then err unexpected_eof else ok (p, zab')

-- binary.Read of an unsigned integer of `k` bytes
unfoldable pub binary_read : ℕ → ReadBuffer → Result IoError (ℕ × ReadBuffer)
unfolding read_full get_le
binary_read k zab = do (p, zab') ← read_full k zab; ok (get_le p, zab')

-- Empty
unfoldable pub is_empty : ReadBuffer → Bool
is_empty zab = zab.len == 0
