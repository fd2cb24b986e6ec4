-- ===== src/Lib.antt =====
-- The verification library of the Sovereign Imperia Citadel: models of the services under
-- src/citadel/services and of the scripts under tools/ that they call, translated from the Python
-- source, and theorems about them.
--
-- The parts and how they interact:
--
-- - The control plane, src/citadel/services/authority. A capability is a bit mask: rods in the low
--   bits, the axe in the high 16 of 64. `FascesToken` (fasces.py) carries a mask and a signature;
--   `Imperium` (empire.py) holds a mask and delegates a part of it; `Pomerium` (pomerium.py) says
--   whether a path lies inside the protected zone, where the axe is taken off; `LeaseReaper`
--   (lease.py) ends authority in time; `TrustLedger` (trust.py), `dual_gate` (intercessio.py,
--   auxilia.py) and `SacrosanctRegistry` (tribune.py) guard what cannot be undone, and `is_ratified`
--   (lex_curiata.py) admits an activation manifest. Files Authority, with one child for each module of
--   the source.
-- - The cache in memory, src/citadel/services/cache/ram_cache.py: Cache/Ram. `get`, `put`, `delete`
--   and `clear` are the methods of `RamCache`, `evict`, `pick_victim`, `advance`, `link_at_head`,
--   `unlink` and `move_to_head` its helpers of the same names. memoize.py, which keeps results in it,
--   is Cache/Memoize.
-- - The execution tier, src/citadel/services/execute. A `Blueprint` (Execute/Blueprint) is a task and
--   an executor turns it into an `ExecutionResult`. policy.py routes it (Execute/Policy), arbitrator.py
--   limits the calls (Execute/Arbitrator), sequencer.py groups tasks (Execute/Sequencer), executor.py
--   runs them over the tiers (Execute/Orchestrate), sovereign.py runs a prompt (Execute/Runner).
--   coding.py (Execute/Coding, with the joining of paths in Execute/Paths) applies verified changes and
--   keeps verdict.py's ledger
--   (Execute/Verdict); cloud.py is Execute/Cloud, local/executor.py is Execute/Local and local/hra.py is
--   Execute/Local/Hardware, local/engine.py Execute/Local/Engine. optimizer.py (Execute/Optimizer)
--   runs the coding executor on one file, on the workspace or on a copy.
-- - The army, src/citadel/services/army: queue.py is Army/Queue, forge.py Army/Forge, and pool.py
--   Army/Pool, which uses the leases and the empire of the control plane and the queue.
-- - Retrieval, src/citadel/services/retrieval. A file becomes chunks (chunker.py, Retrieval/Chunker),
--   whose secrets are masked (redact_gate.py) and whose embeddings are remembered (embed_cache.py, both
--   Retrieval/Embeddings); the vector store (vector_store.py, Retrieval/Vectors) keeps their records and
--   ranks them for a query; indexer.py, Retrieval/Indexer, ties these together for a file. service.py
--   (Retrieval/Service) searches, reads and packs the capsule of context from which ask.py answers, with
--   the cached answers of answer_cache.py (both Retrieval/Answers); learner.py, Retrieval/Learner, tunes
--   the threshold.
-- - The compiled units, src/citadel/services/compile. unit.py and compiler.py are Compile/Unit, a unit
--   with its bytes and how a source becomes one; store.py is Compile/Store, the units under their keys
--   behind a Bloom filter.
-- - The graph of imports, src/citadel/services/index/imports.py: Index/Imports, the closure of a module
--   on the adjacency lists.
-- - The scripts under tools/ that these call: _content_address.py, Tools/Bloom, its Bloom filter on
--   bytes with its file, and Tools/Spans, the canonical form of a text and the spans that anchor a
--   snippet; citadel_oracle.py, Tools/Oracle, the digest and the
--   freshness of files and the membership oracle, and citadel_custos.py, Tools/Custos, the guard of what
--   reaches a context window.
-- - Base holds the shared notation, the lemmas on bits, lists, dictionaries, sets and texts; Examples
--   applies the theorems at concrete inputs.
--
-- How the state is modelled. A record stands for the fields of an object and a method is a function
-- from the record to the new record and the result; shared objects are passed along. Times are whole
-- ticks and the clock is an argument. Python's `None` and its exceptions are `none`, or the left side
-- of a sum. A dictionary is an association list in insertion order. A mask is a native number of any
-- size. The methods that the source runs under a lock are single steps; the pool's workers are machines
-- whose steps any schedule may interleave. An executor, an arbitrator or an engine is a function on a
-- state of its own, since it calls models, files or the network.
--
-- Fuel. The eviction loop of the cache and its scan for a victim run on fuel: the scan has one unit
-- more than there are nodes, since each of its rounds clears a bit of a node, and the eviction one more
-- than there are nodes, since each round removes one. That both end is part of the theorem on `put`.
-- The loop of the chunker has one round more than there are
-- lines, since each round starts at a later line; that it ends is part of the theorem on `chunk_text`.
-- The search
-- in the graph of imports has a round for each edge and each neighbor of the start, since an edge puts one
-- module into the queue at most. All other loops are structural recursion.
--
-- Parameters. HMAC, the digest of a content, Python's regular expressions, the printing of numbers in
-- signed texts, the model backend, the subprocesses and the classifiers are arguments, since the
-- repository calls them and does not define them. Where the source computes sizes in floats
-- (local/hra.py) or rates (learner.py), the model has exact fractions; where it computes cosines and
-- scores, the operations on floats are a parameter, and what a theorem needs of their order is a
-- hypothesis. The digests of contents, marshal, the extractors on the ast module,
-- the embedding engine, NumPy, the decoding of bytes, and the sizes and rates of the Bloom filter are
-- parameters too. A file lies in the tree of the workspace, or of a copy, under its path there; a path that is
-- absolute or has a part ".." is taken to lead elsewhere (Execute/Paths), and what is written there is kept. White space and letter case are those of ASCII.
--
-- Not modelled: the Redis branches of the queue, of the cache client and of the retrieval services, the
-- HTTP client, the worker of retrieval, the symbol index, the reuse services, the command line, the other
-- tools, the documents and the assets; the manifest says why for each.
pub mod Base
pub mod Authority
pub mod Cache
pub mod Execute
pub mod Army
pub mod Retrieval
pub mod Tools
pub mod Compile
pub mod Index
pub mod Examples
