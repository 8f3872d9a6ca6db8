-- ===== src/Tests.antt =====
-- Tests and instances of the theorems, on a small network of their own.
mod Order
mod Bytes
mod Demo
mod Data
mod States
mod Contents
mod Nodes
mod Recoveries
mod Networks
mod Texts
mod Answers
mod Stabilizations
