-- ===== src/Tests.antt =====
-- Runs of the models on concrete inputs, and each theorem at an input that meets its conditions.
mod Hash
mod Bmc
mod Paxos
mod Checksum
mod Serve
mod Fw
mod Pairs
mod Adjust
mod Crab
mod Katran
mod Kinds
mod Tunnel
mod Health
