-- ===== src/Nfa.antt =====
-- The nondeterministic machines of src/nfa.cpp, with Nfa, Rule and StateType of src/common.h.
-- A run reads and writes one state, the globals that the file uses, and may end flex.
pub mod State
pub mod Build
pub mod Words
pub mod Graph
pub mod Thompson
pub mod View
pub mod Machine
pub mod Single
pub mod Link
