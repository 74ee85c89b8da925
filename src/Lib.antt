-- ===== src/Lib.antt =====
-- A model of the core of a retrieval server: the job queue that schedules its indexing work, the
-- registry of the PDFs, the index manifest with its manual overrides, the image assets, the split of
-- texts into chunks, the caches, the API keys and the categories of documents. Paths are from the
-- root of the repository.
--
-- Base: what the parts share: lists and dictionaries over native numbers, Boolean tests, texts. A
--   dictionary of the program is a list of entries in insertion order (Base/Dict); Base/Updates has
--   the comparison and the merge of two dictionaries.
-- Caches (src/caches.py): `BoundedLRU`, one function per method; the order of the entries is the
--   order of use.
-- Jobs (src/web_app_classes/queue_job.py) and Ledger (src/job_ledger.py): the record of a job, and
--   the durable entries of the jobs that have not ended, in the file and in the cached payload.
-- JobQueue (src/web_app_classes/rag_job_queue.py): `RagJobQueue`. State has the fields and the small
--   helpers, Enqueue `enqueue_*` and `_enqueue`, Cancel `cancel_job` and `shutdown_finalize`, Worker
--   `_worker_loop`, Waiting `_wait_for_no_queries`, History `_prune_jobs_locked`. Steps has one step
--   for each part of these methods that runs under the lock, so that a run of the server is a sequence
--   of steps of any threads; `claimed` are the jobs that the workers hold between two such parts. Two
--   locked parts are not steps: `shutdown_finalize`, and `recover_pending_uploads`, which runs at start-up
--   and keeps the invariant of the steps (Recovery/Resumed).
--   Invariant and Preservation have the invariant, Effects what a step does to the jobs, and
--   Coalescing, Lifecycle, Finishing, Patience and History/Pruning the theorems. Recovery is
--   `recover_pending_uploads`: the jobs of the ledger, and in Recovery/Uploads those of the registry;
--   Survival, Crash and Resuming have what is resumed, Interrupting and Cancelled what is not. Summary
--   is `summary`.
-- Registry (src/pdf_registry.py): `PdfRegistry` on the entries by hash. Commit, Superseding and
--   Restoring have the theorems, Pending what Restoring needs of an upload under way.
-- Assets (src/asset_store.py): `ImageAssetStore`, the manifest on disk and the open batch. Merge is
--   on `commit_batch`.
-- Manifest (src/local_rag.py): `IndexManifest`, its totals (Totals) and its sources (Sources).
-- Overrides (src/index_overrides.py): the edits and deletions of each index directory. Applying is
--   on what the index shows, Moving on the move of a document.
-- Sectioning (src/sectioning.py): `split_text` on lists of characters. Windows is on a long
--   paragraph, Chunks and Groups on the others.
-- Citations (src/local_rag_classes/citation_registry.py): `CitationRegistry`, the labels of cited
--   sources.
-- VectorStore (src/vector_store.py): `MultiVectorStore.search`, on what the searches of the stores
--   return; Ranking is on the sort, Best on the union.
-- ApiKeys (src/api_key_auth.py): Store and Sets are `KeyStore`, with the cache and with writes that
--   fail, Limits is `RateLimiter`, Usage is `UsageTracker`, Authenticator is `ApiKeyAuthenticator`.
-- Categories (src/categories.py): `CategoryStore`, with its two tables as dictionaries.
--
-- The queue writes the ledger through Ledger and calls the PDF registry, whose calls are recorded in
-- order; flags say whether a write of a file or a call of the registry succeeds. Recovery reads the
-- entries of Registry. The authenticator uses the store, the limiter and the tracker, which share
-- one store.
--
-- Numbers are unbounded as in Python. Clocks are arguments, in ticks or as ISO texts. Loops are
-- structural on a list, but four that run on a bound: `windows` has as much fuel as the paragraph
-- has characters, and every round moves on by one at least; `prune_loop` and `evict_if_needed` go
-- once over the entries, and `spawn` runs on the room for workers, which every round lowers. The
-- rounds of the wait are a list of polls, one for each return of `wait`.
--
-- Parameters stand for code that is not in the repository: `dumps` is `json.dumps`, `sha256` is
-- `hashlib.sha256`, `parse` is `datetime.fromisoformat`, `same` is Python's `==`, `split_paragraphs`
-- is `re.split`, `is_space` is what `str.strip` removes, `parent`, `path_name` and `inside` are of
-- `pathlib`, and `shown` is the text of a JSON value.
--
-- Not modelled: the bodies of the jobs (ingestion, indexing, transfer), the normalisation of texts
-- (keys, labels and names are as the normalisers return them), the coercion of hand-edited files,
-- the headings and sections of documents, the routes of the web application, retrieval, the stores
-- below the union, the parsers of documents, language models, the cluster backend, scripts and the
-- browser code. A graceful shutdown is modelled by its locked parts, and is not among the steps of
-- the queue.
pub mod Base
pub mod Caches
pub mod Jobs
pub mod Ledger
pub mod ApiKeys
pub mod Categories
pub mod Registry
pub mod Assets
pub mod Sectioning
pub mod Citations
pub mod VectorStore
pub mod Overrides
pub mod Manifest
pub mod JobQueue
