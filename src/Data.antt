-- ===== src/Data.antt =====
-- core/data_manager/: how trajectory rows reach the database.
pub mod Environments
pub mod Upserts
pub mod WriteBuffer
