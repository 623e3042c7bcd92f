-- ===== src/Tests.antt =====
-- Concrete runs, and the theorems at concrete inputs.
mod Index
mod Docs
mod Inverted
mod Ranking
mod Requests
mod Indexing
mod Snippets
mod Drafts
mod Searching
mod Merging
