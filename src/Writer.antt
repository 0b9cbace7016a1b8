-- ===== src/Writer.antt =====
-- writer.go: the Writer, which hands messages to a writer for each partition.
pub mod Batching
pub mod Sending
pub mod Partitions
