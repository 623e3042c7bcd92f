-- ===== src/Searcher.antt =====
-- include/searcher/searcher.hpp: what the searcher hands out. The type of the times is a parameter.
pub mod Selections
pub mod Snippets
pub mod Index
pub mod Search
pub mod Terminal
use amigos.Base.{ℕ, List, Bytes}

pub record Document : Type 0 where
  pub video_id : Bytes
  pub title : Bytes
  pub doc_id : ℕ

pub record Snippet (D : Type 0) : Type 0 where
  pub subtitle : Bytes × D
  pub selections : List (ℕ × ℕ)
