-- ===== src/Tests.antt =====
-- Runs of the code on concrete inputs: the parameters of the development in `Model`, the applications
-- of the theorems in the other modules.
pub mod Model
mod Experiments
mod Services
mod Analyses
mod Runners
pub mod Merge
mod Lifecycles
mod Clients
mod Edges
mod Readings
mod Meshes
