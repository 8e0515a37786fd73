-- ===== src/Tests.antt =====
-- Runs of the model on concrete inputs, and the theorems at such inputs.
mod Sample
mod Commits
mod Frames
mod Damages
mod Publishes
mod Settles
mod Tools
mod Tracers
mod Monitors
