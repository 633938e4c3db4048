-- ===== src/Services.antt =====
-- backend/app/services and backend/app/repositories: the services over the rows of the database.
pub mod Store
pub mod Owned
pub mod Agents
pub mod Ingestion
pub mod KnowledgeBases
pub mod Chat
pub mod RetrievalDebug
pub mod Documents
