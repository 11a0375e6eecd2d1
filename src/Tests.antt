-- ===== src/Tests.antt =====
-- Runs of the theorems on concrete inputs, one module for each part of the program.
mod Toys
mod Stores
mod Challenge
mod Enrol
mod Guards
mod Requests
mod Targets
mod Gateway
mod Startup
mod Upstash
mod Browser
mod Concurrent
mod Keygen
mod Roots
mod Node
