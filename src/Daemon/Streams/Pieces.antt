-- ===== src/Daemon/Streams/Pieces.antt =====
-- daemon/api/grpc/file_api.go: the messages of ReadStream.
use mathlib.Core.List.{append_assoc, append-nil}
use stor.Base.{
  ℕ, zero, suc, ◌<◌, ◌≤◌, ◌≡◌, refl, sym, ap, ◌∙◌, Bytes, List, [], ◌∷◌, ◌++◌, Bool-cases, inl, inr,
  leb, leb→le, leb_false→lt, length, take, drop, take-append-drop, length-take, length-drop, All,
  arith,
}
use stor.Pipeline.Composing.Order.{joined}
use stor.Daemon.Streams.{parts_of, sent_messages}

abbrev IsShort : ℕ → Bytes → Type 0
IsShort size bytes = length bytes ≤ size

parts_of_lem :
    (size fuel : ℕ) (bytes : Bytes)
    → 0 < size
    → length bytes ≤ fuel
    → (joined (parts_of size fuel bytes) ≡ bytes) × All (IsShort size) (parts_of size fuel bytes)
unfolding parts_of
parts_of_lem size zero bytes some_size h = (append-nil bytes, (omega arith, tt))
parts_of_lem size (suc fuel) bytes some_size h = elim (Bool-cases (leb (length bytes) size)) [
  | inl t ↦ rw t (append-nil bytes, (leb→le (length bytes) size t, tt))
  | inr f ↦
      let long = leb_false→lt (length bytes) size f in
      let (all, short) =
        parts_of_lem size fuel (drop size bytes) some_size
          (omega (arith, length-drop size bytes)) in
      rw f (
        ap (◌++◌ (take size bytes)) all ∙ take-append-drop size bytes,
        (omega (arith, length-take size bytes), short),
      )
]

All-append : {A : Type 0} (P : A → Type 0) (xs ys : List A) → All P xs → All P ys → All P (xs ++ ys)
All-append P [] ys h k = k
All-append P (x ∷ xs) ys h k = (h.0, All-append P xs ys h.1 k)

joined-append : (xs ys : List Bytes) → joined (xs ++ ys) ≡ joined xs ++ joined ys
joined-append [] ys = refl
joined-append (x ∷ xs) ys =
    ap (◌++◌ x) (joined-append xs ys) ∙ sym (append_assoc x (joined xs) (joined ys))

-- The messages that ReadStream sends are, one after another, all the data that are read, and none is
-- longer than the chunk size of the request, which is positive.
pub sent_messages_lem :
    (size : ℕ) (pieces : List Bytes)
    → 0 < size
    → (joined (sent_messages size pieces) ≡ joined pieces)
      × All (λ message. length message ≤ size) (sent_messages size pieces)
unfolding sent_messages
sent_messages_lem size [] some_size = (refl, tt)
sent_messages_lem size (piece ∷ pieces) some_size =
    let (all, short) = parts_of_lem size (length piece) piece some_size (omega arith) in
    let (rest, short') = sent_messages_lem size pieces some_size in
    (
      joined-append (parts_of size (length piece) piece) (sent_messages size pieces)
          ∙ rw (all, rest) refl,
      All-append (IsShort size) (parts_of size (length piece) piece) (sent_messages size pieces)
          short short',
    )
