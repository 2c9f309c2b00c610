-- ===== src/Tests.antt =====
-- Tests and worked examples, with small JSON values and fixed-point numbers in place of the
-- packages' types.
mod Values
mod Times
mod Gaps
mod Rows
mod Cuts
mod Drawings
mod Commits
mod Tasks
mod Requests
mod States
mod Vacuums
mod Locks
