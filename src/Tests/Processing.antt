-- ===== src/Tests/Processing.antt =====
-- Registries and processors, and a configuration of a pipeline, at concrete values.
use stor.Base.{ℕ, ◌≡◌, refl, sym, codes, [], ◌∷◌, ok, ok-injective, none-ne-some, arith, ◌<◌}
use stor.Pipeline.Types.{Processor, Hasher, IsReversible}
use stor.Pipeline.Splitter.{AsyncSplitter, new_async_splitter}
use stor.Pipeline.Splitter.Writing.{HasJobs}
use stor.Pipeline.Config.{Config, Constructors, new_pipeline, new_processor, new_chunk_storage}
use stor.Pipeline.Config.Chosen.{AreReversible, new_pipeline-parallel}
use stor.Processing.{new_processor_chain, nop_processor, chain_write, chain_read}
use stor.Processing.Chains.{new_processor_chain-IsReversible, nop_processor-IsReversible}
use stor.Processing.Registries.{
  Registry, entered, empty_registry, register_compressor_decompressor, marshal_type_text,
  unmarshal_type_text,
}
use stor.Processing.Registries.Laws.{
  IsConsistent, register-IsConsistent, unmarshal-marshal_type_text,
}
use stor.Tests.Pipeline.{turned, turned-IsReversible, first_byte}
use stor.Tests.Splitter.{list_storage}

empty_registry-IsConsistent : IsConsistent (empty_registry {C = ℕ})
empty_registry-IsConsistent t name e = absurd (none-ne-some e)

abbrev one_entry : Registry ℕ
one_entry = entered empty_registry 0 (codes "snappy") 7

register-IsConsistent_test : IsConsistent one_entry
unfolding register_compressor_decompressor
register-IsConsistent_test =
    register-IsConsistent empty_registry one_entry 0 (codes "Snappy") 7 empty_registry-IsConsistent
      (λ u e. absurd (none-ne-some e)) refl

unmarshal-marshal_type_text_test : unmarshal_type_text one_entry (codes "snappy") ≡ ok 0
unfolding register_compressor_decompressor marshal_type_text
unmarshal-marshal_type_text_test =
    unmarshal-marshal_type_text one_entry 0 (codes "snappy") (codes "snappy")
      (register-IsConsistent empty_registry one_entry 0 (codes "Snappy") 7
        empty_registry-IsConsistent (λ u e. absurd (none-ne-some e)) refl)
      refl refl

abbrev chained : Processor
chained = record {
  write_process = chain_write (turned ∷ nop_processor ∷ []);
  read_process = chain_read (turned ∷ nop_processor ∷ []);
}

new_processor_chain-IsReversible_test : IsReversible chained
unfolding new_processor_chain
new_processor_chain-IsReversible_test =
    new_processor_chain-IsReversible (turned ∷ nop_processor ∷ []) chained
      (turned-IsReversible, (nop_processor-IsReversible, tt)) refl

abbrev small_constructors : Constructors
small_constructors = record {
  compressor = λ t mode. ok turned;
  encrypter = λ t key. ok nop_processor;
  hasher = λ t key. ok first_byte;
  random_chunk_storage = ok list_storage;
  replicated_chunk_storage = λ n jobs. ok list_storage;
  distributed_chunk_storage = λ k m jobs. ok list_storage;
  default_job_count = 4;
}

small_constructors-AreReversible : AreReversible small_constructors
small_constructors-AreReversible = record {
  compressors = λ t mode p e. rw (sym (ok-injective e)) turned-IsReversible;
  encrypters = λ t key p e. rw (sym (ok-injective e)) nop_processor-IsReversible;
}

abbrev small_config : Config
small_config = record {
  block_size = 2;
  hashing = record { hash_type = 0; private_key = [] };
  compression = record { mode = 1; compression_type = 0 };
  encryption = record { private_key = 1 ∷ []; encryption_type = 0 };
  distribution = record { data_shard_count = 1; parity_shard_count = 1 };
}

abbrev configured : AsyncSplitter
configured = record {
  hasher = ok first_byte;
  processor = ok chained;
  chunk_storage = list_storage;
  storage_job_count = 8;
  processor_job_count = 4;
  chunk_size = 2;
}

new_pipeline-parallel_example :
    HasJobs configured
    × ((p : Processor) × (configured.processor ≡ ok p) × IsReversible p)
    × ((h : Hasher) × (configured.hasher ≡ ok h))
    × (configured.chunk_size ≡ small_config.block_size)
    × (0 < small_config.block_size)
unfolding new_pipeline new_processor new_chunk_storage new_async_splitter new_processor_chain
new_pipeline-parallel_example =
    new_pipeline-parallel small_constructors small_config 0 configured (omega arith)
      small_constructors-AreReversible refl
