-- ===== src/Processing/Chains.antt =====
-- client/processing: what the processors have written, they read.
use stor.Base.{
  false, ◌<◌, ◌≡◌, sym, ap, Bytes, List, [], ◌∷◌, ◌++◌, leb, ltb, Bool-cases, inl, inr, length,
  length-append, take-append_left, drop-append_left, ok, bind-ok, ok-injective, panic-ne-ok, All,
  arith,
}
use stor.Pipeline.Types.{Processor, IsReversible}
use stor.Processing.{
  chain_write, chain_read, new_processor_chain, nop_processor, Aead, aes_encrypter_decrypter,
}

chain_read-write :
    (ps : List Processor) (bytes processed : Bytes)
    → All IsReversible ps
    → chain_write ps bytes ≡ ok processed
    → chain_read ps processed ≡ ok bytes
unfolding chain_write chain_read
chain_read-write [] bytes processed h e = ap ok (sym (ok-injective e))
chain_read-write (p ∷ ps) bytes processed h e =
    let (half, f, g) = bind-ok (p.write_process bytes) (λ x. chain_write ps x) processed e in
    rw (chain_read-write ps half processed h.1 g) (h.0 bytes half f)

-- A chain of reversible processors is reversible.
pub new_processor_chain-IsReversible :
    (ps : List Processor) (p : Processor)
    → All IsReversible ps
    → new_processor_chain ps ≡ ok p
    → IsReversible p
unfolding new_processor_chain
new_processor_chain-IsReversible ps p h e = elim (Bool-cases (ltb (length ps) 2)) [
  | inl t ↦ absurd (panic-ne-ok (rw t at e))
  | inr f ↦
      let same = ok-injective (rw f at e) in
      rw (sym same) (λ bytes processed. chain_read-write ps bytes processed h)
]

pub nop_processor-IsReversible : IsReversible nop_processor
nop_processor-IsReversible bytes processed e = ap ok (sym (ok-injective e))

-- What the encrypter relies on: opening undoes sealing, which adds something.
pub record IsAead (gcm : Aead) : Type 0 where
  pub open-seal : (nonce plain : Bytes) → gcm.open_sealed nonce (gcm.seal nonce plain) ≡ ok plain
  pub overhead : (nonce plain : Bytes) → length plain < length (gcm.seal nonce plain)

pub aes_encrypter_decrypter-IsReversible :
    (gcm : Aead) (nonce_for : Bytes → Bytes)
    → IsAead gcm
    → ((plain : Bytes) → length (nonce_for plain) ≡ gcm.nonce_size)
    → IsReversible (aes_encrypter_decrypter gcm nonce_for)
aes_encrypter_decrypter-IsReversible gcm nonce_for aead sized plain cipher e =
    let nonce = nonce_for plain in
    let sealed = gcm.seal nonce plain in
    let long : leb (length (nonce ++ sealed)) gcm.nonce_size ≡ false =
      ground (arith, length-append nonce sealed, sized plain, aead.overhead nonce plain) in
    rw (sym (ok-injective e)) (
      rw long (
        rw
          (
            take-append_left gcm.nonce_size nonce sealed (sized plain),
            drop-append_left gcm.nonce_size nonce sealed (sized plain),
          )
          (aead.open-seal nonce plain)))
