-- ===== src/Drive.antt =====
-- The enterprise cloud drive, enterprise_cloud_drive/: what its server and client share, and the
-- storage and the tokens of the server.
pub mod Protocol
pub mod Base64
pub mod Storage
pub mod Uploads
pub mod Token
pub mod Sql
pub mod Index
pub mod Accounts
pub mod Cloud
pub mod Client
