-- ===== src/Knowledge.antt =====
-- zen_claw/knowledge/reranker.py: passages put in the order that a language model says.
-- zen_claw/knowledge/notebook.py: the index of the notebooks, and the sources of their documents.
pub mod Rerank
mod Indices
pub mod Passages
pub mod Notebooks
pub mod Sources
mod Order
mod Tests
