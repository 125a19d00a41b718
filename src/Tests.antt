-- ===== src/Tests.antt =====
-- Each theorem that the header lists, applied at a concrete input.
mod Accounts
mod Keys
mod Limits
mod Transport
mod Schema
mod Tables
mod Connections
mod Oauth
mod Sql
mod Files
mod Registry
mod Metrics
mod Scoped
mod Rows
mod Endpoints
mod Routes
mod Managed
