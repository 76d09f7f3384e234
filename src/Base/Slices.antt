-- ===== src/Base/Slices.antt =====
-- Byte slices as lists of numbers, their comparison, and the unsigned integers of Go's
-- encoding/binary in little endian order.
use Prim.Native.Char.{code}
use Prim.Native.Nat.{ℕ, zero, suc, ◌+◌, ◌*◌, ◌/◌, ◌%◌, ◌^◌, ◌<◌}
use Prim.Native.String.{String}
use mathlib.Core.Path.{◌≡◌, refl, ap}
use mathlib.Core.Logic.{◌↔◌}
use mathlib.Core.Bool.{Bool, true, false, ◌&&◌}
use mathlib.Core.List.{List, [], ◌∷◌}
use native.Mathlib.Nat.{pow-suc}
use native.Mathlib.Omega.{arith}
use stor.Base.Tests.{◌==◌}
use stor.Base.Lists.{length, All}

abbrev pub Bytes : Type 0
Bytes = List ℕ

abbrev pub IsByte : ℕ → Type 0
IsByte b = b < 256

abbrev pub AreBytes : Bytes → Type 0
AreBytes = All IsByte

abbrev pub codes : String → Bytes
codes (String.◌∷◌ letter text) = code letter ∷ codes text
codes String.[] = []

-- bytes.Equal
abbrev pub bytes_eq : Bytes → Bytes → Bool
bytes_eq [] [] = true
bytes_eq [] (y ∷ ys) = false
bytes_eq (x ∷ xs) [] = false
bytes_eq (x ∷ xs) (y ∷ ys) = x == y && bytes_eq xs ys

-- bytes.HasPrefix
abbrev pub has_prefix : Bytes → Bytes → Bool
has_prefix s [] = true
has_prefix [] (y ∷ ys) = false
has_prefix (x ∷ xs) (y ∷ ys) = x == y && has_prefix xs ys

-- binary.LittleEndian.PutUint16, PutUint32 and PutUint64, by the number of bytes
unfoldable pub put_le : ℕ → ℕ → Bytes
put_le zero v = []
put_le (suc k) v = (v % 256) ∷ put_le k (v / 256)

-- binary.LittleEndian.Uint16, Uint32 and Uint64
unfoldable pub get_le : Bytes → ℕ
get_le [] = 0
get_le (b ∷ bs) = b + 256 * get_le bs

pub length-put_le : (k v : ℕ) → length (put_le k v) ≡ k
unfolding put_le
length-put_le zero v = refl
length-put_le (suc k) v = ap suc (length-put_le k (v / 256))

pub put_le-AreBytes : (k v : ℕ) → AreBytes (put_le k v)
unfolding put_le
put_le-AreBytes zero v = tt
put_le-AreBytes (suc k) v = (omega arith, put_le-AreBytes k (v / 256))

div-lt_of_lt_mul : (v m : ℕ) → v < m * 256 → v / 256 < m
div-lt_of_lt_mul v m h = omega arith

mod_step : (b n : ℕ) → b < 256 → (b + 256 * n) % 256 ≡ b
mod_step b n h = omega arith

div_step : (b n : ℕ) → b < 256 → (b + 256 * n) / 256 ≡ n
div_step b n h = omega arith

pub get_le-put_le : (k v : ℕ) → v < 256 ^ k → get_le (put_le k v) ≡ v
unfolding put_le get_le
get_le-put_le zero v h = omega arith
get_le-put_le (suc k) v h =
    omega (arith, get_le-put_le k (v / 256) (div-lt_of_lt_mul v (256 ^ k) (rw pow-suc at h)))

pub put_le-get_le : (bs : Bytes) → AreBytes bs → put_le (length bs) (get_le bs) ≡ bs
unfolding put_le get_le
put_le-get_le [] h = refl
put_le-get_le (b ∷ bs) h =
    rw (div_step b (get_le bs) h.0, put_le-get_le bs h.1)
      (ap (λ (x : ℕ). x ∷ bs) (mod_step b (get_le bs) h.0))

pub bytes_eq_refl : (xs : Bytes) → bytes_eq xs xs ≡ true
bytes_eq_refl [] = refl
bytes_eq_refl (x ∷ xs) = ground (arith, bytes_eq_refl xs)

pub bytes_eq→eq : (xs ys : Bytes) → bytes_eq xs ys ≡ true → xs ≡ ys
bytes_eq→eq [] [] h = refl
bytes_eq→eq [] (y ∷ ys) h = cc
bytes_eq→eq (x ∷ xs) [] h = cc
bytes_eq→eq (x ∷ xs) (y ∷ ys) h = ground (arith, bytes_eq→eq xs ys)

pub bytes_eq_iff : (xs ys : Bytes) → (bytes_eq xs ys ≡ true) ↔ (xs ≡ ys)
bytes_eq_iff xs ys = (bytes_eq→eq xs ys, λ e. rw e (bytes_eq_refl ys))
