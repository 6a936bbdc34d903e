-- ===== src/Service/Batches.antt =====
-- processBatch of packages/domain/src/embedding-service.ts and a chunk that throws.
use tech_p.Base.{◌≡◌, refl, ap, List, [], ◌∷◌, ◌++◌, map, none, some, err}
use tech_p.Embedding.Items.{Hashing, EmbedDb}
use tech_p.Calls.Checks.{CallError}
use tech_p.Service.Preflight.{ServiceOptions, ChunkStatus, ChunkCall, ChunkResult}
use tech_p.Service.Named.{process_batch-named}
use tech_p.Service.Chunk.{reported, process_chunk, process_batch}

module _ (hashing : Hashing) (o : ServiceOptions) where
  split_batch :
      (before : List ChunkCall) (call : ChunkCall) (behind : List ChunkCall) (db db' : EmbedDb)
      (e : CallError)
      → process_chunk hashing o call (process_batch hashing o before db).1 ≡ (err e, db')
      → process_batch hashing o (before ++ call ∷ behind) db ≡ (
        (process_batch hashing o before db).0
            ++ reported call.chunk (err e) ∷ (process_batch hashing o behind db').0,
        (process_batch hashing o behind db').1,
      )
  unfolding process_batch
  split_batch [] call behind db db' e throws = rw throws refl
  split_batch (c ∷ before) call behind db db' e throws =
      let (first, db1) = process_chunk hashing o c db in
      let rest = split_batch before call behind db1 db' e throws in
      ap (λ (r : List ChunkResult × EmbedDb). (reported c.chunk first ∷ r.0, r.1)) rest

  -- A chunk that throws is reported in its place, by its id, as failed, with its error and without a work item
  -- or a vector; the chunks before it keep their results, and those behind it are processed as if the batch
  -- began there, in the database that the throw left. The results of a batch are one for each chunk, by its
  -- id, in the order of the chunks.
  pub batch_isolates_errors :
      (before : List ChunkCall) (call : ChunkCall) (behind : List ChunkCall) (db db' : EmbedDb)
      (e : CallError)
      → process_chunk hashing o call (process_batch hashing o before db).1 ≡ (err e, db')
      → (process_batch hashing o (before ++ call ∷ behind) db ≡ (
        (process_batch hashing o before db).0
            ++ record {
              chunk_id = call.chunk.chunk_id;
              status = ChunkStatus.failed;
              work_id = none;
              vector = none;
              error = some e;
            }
              ∷ (process_batch hashing o behind db').0,
        (process_batch hashing o behind db').1,
      ))
        × (map
              (λ (r : ChunkResult). r.chunk_id)
              (process_batch hashing o (before ++ call ∷ behind) db).0
            ≡ map (λ (c : ChunkCall). c.chunk.chunk_id) (before ++ call ∷ behind))
  batch_isolates_errors before call behind db db' e throws = (
    split_batch before call behind db db' e throws,
    process_batch-named hashing o (before ++ call ∷ behind) db,
  )
