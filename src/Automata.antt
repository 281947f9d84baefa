-- ===== src/Automata.antt =====
-- reference/salvage/lstar.cpp: a learner of Mealy machines, its systems under learning and its cache
-- of queries, in child modules. An `int` that names a state, an input or an output is a number.
pub mod Mealy
pub mod Sul
pub mod Acts
pub mod Bucket
pub mod FirstPeriod
pub mod Query
pub mod Determined
pub mod Asked
pub mod Product
pub mod Characterize
pub mod Learner
pub mod Systems
pub mod Suffix
pub mod Cuts
pub mod Splits
pub mod Hunt
pub mod Witness
pub mod Minimal
