-- ===== src/Examples.antt =====
-- Each theorem of the results with hypotheses, on an input that has them.
mod Checks
mod Colors
mod Devices
mod Outside
mod Programs
mod Sequences
mod Servers
mod Sessions
mod Texts
