-- ===== src/Wer.antt =====
-- Word error rate (packages/evals/src/uaagro_evals/wer.py).
mod Defs
mod Cells
pub mod Scripts
pub mod Optimal
mod Examples
