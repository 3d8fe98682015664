-- ===== src/Extraction.antt =====
-- engine/extraction.py: what is taken out of the answers of a model.
pub mod Braces
