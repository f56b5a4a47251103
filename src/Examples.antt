-- ===== src/Examples.antt =====
-- The theorems at concrete inputs: a calendar text, a world of fixed answers, and a few cases.
mod Texts
mod World
mod Orders
mod Numbers
mod Dashboards
mod Features
mod Sockets
mod Relays
mod Evaluations
mod Outages
mod Simulations
mod Policies
mod Breakers
mod Graphs
mod Workers
mod Apis
mod Webhooks
mod Windows
mod Columns
mod Downtimes
