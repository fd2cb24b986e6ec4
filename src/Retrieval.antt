-- ===== src/Retrieval.antt =====
-- src/citadel/services/retrieval: chunks, their vectors, and the answers grounded on them.
pub mod Chunker
pub mod Vectors
pub mod Embeddings
pub mod Indexer
pub mod Learner
pub mod Answers
pub mod Service
