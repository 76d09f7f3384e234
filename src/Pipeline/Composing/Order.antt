-- ===== src/Pipeline/Composing/Order.antt =====
-- client/datastor/pipeline/async_splitter.go: the bytes that the composing goroutine of Read writes.
use native.Mathlib.Nat.{le_refl}
use mathlib.Core.List.{append_assoc, append-nil}
use stor.Base.{
  ltb_false→le, ltb→lt, ltb, some-injective, none-ne-some, ℕ, zero, suc, ◌<◌, ◌≤◌, ◌≡◌, ◌⊎◌, inl,
  inr, refl, sym, ap, ◌∙◌, Bytes, List, [], ◌∷◌, ◌++◌, leb, ◌==◌, ==_iff, Option, none, some,
  Bool-cases, length, take, take_all, get_elem?, count_if, arith, All,
}
use stor.Pipeline.Numbered.{lookup_number, get_elem?-lt}
use stor.Pipeline.Workers.Counting.{count}
use stor.Pipeline.Flow.Items.{IsItem}
use stor.Pipeline.Composing.{Composer, write_buffered, compose_data, composed}

abbrev pub joined : List Bytes → Bytes
joined [] = []
joined (x ∷ xs) = x ++ joined xs

joined-take-suc :
    (xs : List Bytes) (n : ℕ) (b : Bytes)
    → get_elem? xs n ≡ some b
    → joined (take n xs) ++ b ≡ joined (take (suc n) xs)
joined-take-suc [] n b e = absurd cc
joined-take-suc (x ∷ xs) zero b e = sym (some-injective e) ∙ sym (append-nil x)
joined-take-suc (x ∷ xs) (suc n) b e =
    append_assoc x (joined (take n xs)) b ∙ ap (◌++◌ x) (joined-take-suc xs n b e)

-- The entries for a number or a later one
abbrev from_number : ℕ → List (ℕ × Bytes) → ℕ
from_number n xs = count_if (λ x. leb n x.0) xs

from_number-le-length : (n : ℕ) (xs : List (ℕ × Bytes)) → from_number n xs ≤ length xs
from_number-le-length n [] = omega arith
from_number-le-length n (x ∷ xs) = ground (arith, from_number-le-length n xs)

from_number-suc : (n : ℕ) (xs : List (ℕ × Bytes)) → from_number (suc n) xs ≤ from_number n xs
from_number-suc n [] = omega arith
from_number-suc n (x ∷ xs) = ground (arith, from_number-suc n xs)

lookup-from_number :
    (n : ℕ) (xs : List (ℕ × Bytes)) (b : Bytes)
    → lookup_number n xs ≡ some b
    → from_number (suc n) xs < from_number n xs
lookup-from_number n [] b e = absurd cc
lookup-from_number n ((m, a) ∷ xs) b e = elim (Bool-cases (m == n)) [
  | inl t ↦ ground (arith, (==_iff m n).0 t, from_number-suc n xs)
  | inr f ↦ ground (arith, lookup-from_number n xs b (rw f at e))
]

lookup-All :
    (P : ℕ × Bytes → Type 0) (n : ℕ) (xs : List (ℕ × Bytes)) (b : Bytes)
    → All P xs
    → lookup_number n xs ≡ some b
    → P (n, b)
lookup-All P n [] b h e = absurd cc
lookup-All P n ((m, a) ∷ xs) b h e = elim (Bool-cases (m == n)) [
  | inl t ↦ rw ((==_iff m n).0 t, some-injective (rw t at e)) at h.0
  | inr f ↦ lookup-All P n xs b h.1 (rw f at e)
]

count-lookup_none : (n : ℕ) (xs : List (ℕ × Bytes)) → lookup_number n xs ≡ none → count n xs ≡ 0
count-lookup_none n [] e = refl
count-lookup_none n ((m, a) ∷ xs) e = elim (Bool-cases (m == n)) [
  | inl t ↦ absurd (none-ne-some (sym (rw t at e)))
  | inr f ↦ ground (arith, f, count-lookup_none n xs (rw f at e))
]

module _ (outs : List Bytes) where
  -- What the composer has done with the arrivals, which are items of `outs`.
  record Composes (arrivals : List (ℕ × Bytes)) (s : Composer) : Type 0 where
    fits : s.expected ≤ length outs
    in_order : s.written ≡ joined (take s.expected outs)
    buffered : All (IsItem outs) s.buffer
    kept : (i : ℕ) → 0 < count i arrivals → (i < s.expected) ⊎ (0 < count i s.buffer)
    waits : lookup_number s.expected s.buffer ≡ none

  -- What the inner loop does once it has an item to write.
  record Advances (s t : Composer) : Type 0 where
    same_buffer : t.buffer ≡ s.buffer
    ahead : s.expected < t.expected
    fits_after : t.expected ≤ length outs
    in_order_after : t.written ≡ joined (take t.expected outs)
    waits_after : lookup_number t.expected t.buffer ≡ none

  abbrev advanced : Composer → Bytes → Composer
  advanced s b = record s { expected = suc s.expected; written = s.written ++ b }

  Advances-advanced :
      (fuel : ℕ) (s : Composer) (b : Bytes) (o : Option Bytes)
      → lookup_number (suc s.expected) s.buffer ≡ o
      → s.written ≡ joined (take s.expected outs)
      → get_elem? outs s.expected ≡ some b
      → ((c : Bytes) → o ≡ some c → Advances (advanced s b) (write_buffered fuel (advanced s b) o))
      → Advances s (write_buffered fuel (advanced s b) o)
  unfolding write_buffered
  Advances-advanced fuel s b none none_left w e rest = record {
    same_buffer = refl;
    ahead = omega arith;
    fits_after = get_elem?-lt outs s.expected b e;
    in_order_after = ap (λ x. x ++ b) w ∙ joined-take-suc outs s.expected b e;
    waits_after = none_left;
  }
  Advances-advanced fuel s b (some c) f w e rest =
      let r = rest c refl in
      record {
        same_buffer = r.same_buffer;
        ahead = omega (arith, r.ahead);
        fits_after = r.fits_after;
        in_order_after = r.in_order_after;
        waits_after = r.waits_after;
      }

  write_buffered-Advances :
      (fuel : ℕ) (s : Composer) (b : Bytes)
      → from_number (suc s.expected) s.buffer < fuel
      → s.written ≡ joined (take s.expected outs)
      → All (IsItem outs) s.buffer
      → get_elem? outs s.expected ≡ some b
      → Advances s (write_buffered fuel s (some b))
  unfolding write_buffered
  write_buffered-Advances zero s b enough w h e = absurd (omega arith)
  write_buffered-Advances (suc fuel) s b enough w h e =
      let next = suc s.expected in
      let joins : s.written ++ b ≡ joined (take next outs) =
        ap (λ x. x ++ b) w ∙ joined-take-suc outs s.expected b e in
      Advances-advanced fuel s b (lookup_number next s.buffer) refl w e (λ c f. rw f (
        write_buffered-Advances fuel (advanced s b) c
          (omega (arith, lookup-from_number next s.buffer c f)) joins h
          (lookup-All (IsItem outs) next s.buffer c h f)))

  compose_data-Composes :
      (s : Composer) (arrivals : List (ℕ × Bytes)) (index : ℕ) (b : Bytes)
      → get_elem? outs index ≡ some b
      → Composes arrivals s
      → Composes ((index, b) ∷ arrivals) (compose_data s index b)
  compose_data-Composes s arrivals index b e h = elim (Bool-cases (index == s.expected)) [
    | inl t ↦
        let same : index ≡ s.expected = (==_iff index s.expected).0 t in
        let r =
          write_buffered-Advances (suc (length s.buffer)) s b
            (omega (arith, from_number-le-length (suc s.expected) s.buffer)) h.in_order h.buffered
            (rw same at e) in
        rw t (record {
          fits = r.fits_after;
          in_order = r.in_order_after;
          buffered = rw r.same_buffer h.buffered;
          kept = λ i p. elim (Bool-cases (index == i)) [
            | inl u ↦ inl (omega (arith, (==_iff index i).0 u, same, r.ahead))
            | inr u ↦ elim (h.kept i (omega (arith, rw u at p))) [
              | inl l ↦ inl (omega (arith, l, r.ahead))
              | inr m ↦ inr (rw r.same_buffer m)
            ]
          ];
          waits = r.waits_after;
        })
    | inr f ↦ rw f (record {
      fits = h.fits;
      in_order = h.in_order;
      buffered = (e, h.buffered);
      kept = λ i p. elim (Bool-cases (index == i)) [
        | inl t ↦ inr (rw t (omega arith))
        | inr u ↦ elim (h.kept i (omega (arith, rw u at p))) [
          | inl l ↦ inl l
          | inr m ↦ inr (omega (arith, m))
        ]
      ];
      waits = rw f h.waits;
    })
  ]

  composed-Composes :
      (arrivals : List (ℕ × Bytes))
      → All (IsItem outs) arrivals
      → Composes arrivals (composed arrivals)
  unfolding composed
  composed-Composes [] h = record {
    fits = omega arith;
    in_order = refl;
    buffered = tt;
    kept = λ i p. absurd (omega arith);
    waits = refl;
  }
  composed-Composes ((index, b) ∷ earlier) h =
      compose_data-Composes (composed earlier) earlier index b h.0 (composed-Composes earlier h.1)

  -- In whatever order the items arrive, they are written in their own.
  pub composed_lem :
      (arrivals : List (ℕ × Bytes))
      → All (IsItem outs) arrivals
      → ((i : ℕ) → i < length outs → 0 < count i arrivals)
      → (composed arrivals).written ≡ joined outs
  composed_lem arrivals h all =
      let s = composed arrivals in
      let k = composed-Composes arrivals h in
      let end : s.expected ≡ length outs = elim (Bool-cases (ltb s.expected (length outs))) [
        | inl t ↦ elim (k.kept s.expected (all s.expected (ltb→lt s.expected (length outs) t))) [
          | inl l ↦ absurd (omega (arith, l))
          | inr m ↦ absurd (omega (arith, m, count-lookup_none s.expected s.buffer k.waits))
        ]
        | inr f ↦ omega (arith, k.fits, ltb_false→le s.expected (length outs) f)
      ] in
      let whole : take s.expected outs ≡ outs =
        rw end (take_all (length outs) outs (le_refl (length outs))) in
      k.in_order ∙ ap joined whole
