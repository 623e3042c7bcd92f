-- ===== src/Indexer.antt =====
-- projects/indexer/src/indexer.cpp: the class `Indexer`, from the documents of the raw data to the
-- inverted index in memory.
pub mod Zones
pub mod Words
pub mod Flush
pub mod Items
pub mod Cook
