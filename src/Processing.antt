-- ===== src/Processing.antt =====
-- client/processing: the processor that does nothing, the chain of processors (processor.go), and the
-- encrypter of crypto.go, where the cipher of Go's standard library and its random numbers are arguments.
pub mod Registries
pub mod Chains
use stor.Base.{
  ℕ, Bytes, List, [], ◌∷◌, ◌++◌, leb, ltb, length, take, drop, Result, ok, err, ◌>>=◌, ◌>>◌,
  panic_if, fail_if,
}
use stor.Pipeline.Types.{Error, processor, Processor}

-- NopProcessor
abbrev pub nop_processor : Processor
nop_processor = record { write_process = λ bytes. ok bytes; read_process = λ bytes. ok bytes }

-- ProcessorChain.WriteProcess
unfoldable pub chain_write : List Processor → Bytes → Result Error Bytes
chain_write [] bytes = ok bytes
chain_write (p ∷ ps) bytes = p.write_process bytes >>= λ processed. chain_write ps processed

-- ProcessorChain.ReadProcess, from the last processor to the first
unfoldable pub chain_read : List Processor → Bytes → Result Error Bytes
chain_read [] bytes = ok bytes
chain_read (p ∷ ps) bytes = chain_read ps bytes >>= λ processed. p.read_process processed

-- NewProcessorChain
unfoldable pub new_processor_chain : List Processor → Result Error Processor
new_processor_chain ps =
    panic_if (ltb (length ps) 2)
    >> ok (record { write_process = chain_write ps; read_process = chain_read ps })

-- cipher.AEAD under a key: its nonce size, Seal and Open
pub record Aead : Type 0 where
  pub nonce_size : ℕ
  pub seal : Bytes → Bytes → Bytes
  pub open_sealed : Bytes → Bytes → Result Error Bytes

-- `errors.New("malformed ciphertext")`
abbrev pub malformed : Error
malformed = processor 0

-- AESEncrypterDecrypter; `nonce_for` gives the random bytes that are read for a plain text.
abbrev pub aes_encrypter_decrypter : Aead → (Bytes → Bytes) → Processor
aes_encrypter_decrypter gcm nonce_for = record {
  write_process = λ plain. let nonce = nonce_for plain in ok (nonce ++ gcm.seal nonce plain);
  read_process = λ cipher.
      fail_if (leb (length cipher) gcm.nonce_size) malformed
      >> gcm.open_sealed (take gcm.nonce_size cipher) (drop gcm.nonce_size cipher);
}
