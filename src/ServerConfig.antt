-- ===== src/ServerConfig.antt =====
-- The structs of src/server/config.h as JSON, and its `ConfigManager`. The JSON library is a parameter.
pub mod Json
pub mod Network
pub mod Logging
pub mod Detecting
pub mod Analytics
pub mod Compression
pub mod Prediction
pub mod Adapters
pub mod Server
pub mod Client
pub mod Tables
pub mod Games
pub mod Manager
mod Examples
