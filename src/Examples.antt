-- ===== src/Examples.antt =====
-- Concrete runs of the theorems about internal/ and rapidproxy/, with the tests of the definitions.
mod Buckets
mod Domains
mod Breakers
mod Proxies
mod Jobs
mod Races
mod Calls
mod Trips
mod Failures
mod Lookups
mod Lifecycles
mod Pools
