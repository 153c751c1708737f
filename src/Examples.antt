-- ===== src/Examples.antt =====
-- Concrete inputs of the parts, and the theorems at them.
mod Service
mod Figures
mod Tables
mod Ticks
mod Polls
mod Callers
mod Changes
mod Commits
mod People
mod Slots
mod Journeys
