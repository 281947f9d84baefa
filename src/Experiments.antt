-- ===== src/Experiments.antt =====
-- experiments/: what the experiments do with a connection and how they judge what they measured, in
-- child modules. Setting up the lab and printing the tables are left out.
pub mod Scenario
pub mod Delivery
pub mod Settled
pub mod Losses
pub mod HeadOfLine
pub mod OneLoss
