-- ===== src/Rag.antt =====
-- The retrieval side of the backend, backend/app/rag.
pub mod Contracts
pub mod Chunker
pub mod Context
pub mod Fusion
pub mod Retrievers
pub mod Reranker
pub mod Evaluation
pub mod Sparse
