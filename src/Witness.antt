-- ===== src/Witness.antt =====
-- The instances that the properties are applied at: an outside world of small concrete functions, and
-- for each property a run of the code on it.
mod Keyspace
mod Documents
mod Crates
mod Setting
mod ContactCases
mod AuthCases
mod AccountCases
mod SignalingCases
mod RelayCases
mod SystemCases
mod RouteCases
mod TaskCases
mod MeetingCases
mod StartupCases
