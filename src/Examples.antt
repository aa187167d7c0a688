-- ===== src/Examples.antt =====
-- Runs of the models at concrete inputs, and each headline theorem at an input that meets its
-- hypotheses.
mod Searches
mod Clusters
mod Ivf
mod Settings
mod Threads
mod Sharded
mod Vectors
mod Stored
mod Logged
mod Messages
mod Restored
mod Served
mod Remote
mod Started
