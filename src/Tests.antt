-- ===== src/Tests.antt =====
-- Runs of the model on concrete inputs, and the theorems at inputs that meet their hypotheses.
mod Encoding
mod Server
mod Client
mod Distributed
mod Replicated
mod Pipeline
mod Traversal
mod Auth
mod Splitter
mod SplitterJobs
mod Objects
mod Processing
mod Daemon
mod Assembled
mod Tokens
