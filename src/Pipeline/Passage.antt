-- ===== src/Pipeline/Passage.antt =====
-- Every step of the pipeline, its closing included, keeps the account of what passes through
-- (pipeline/pipeline.cpp).
pub mod First
pub mod Second
pub mod Third
