-- ===== src/Tests.antt =====
-- Runs of the model at concrete inputs, and the theorems at inputs that meet their hypotheses.
mod Names
mod Contents
mod Created
mod Handlers
mod Bitmaps
mod Groups
mod Caches
mod Paths
mod Cursors
mod Systems
mod Trees
mod Offsets
mod Permissions
mod Dentries
mod Visits
mod Opens
