-- ===== src/Examples.antt =====
-- Tests of the models, and the theorems at concrete inputs.
mod Fasces
mod Control
mod Cache
mod Execute
mod Tiers
mod Army
mod Optimizer
mod Lex
mod Memo
mod Retrieval
mod Answers
mod Compiled
mod Index
mod Spans
