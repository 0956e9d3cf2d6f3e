-- ===== src/Field.antt =====
-- The rider's app, apps/field: what its offline core keeps, shows and sends.
pub mod Types
pub mod Rules
pub mod Store
pub mod Sync
pub mod Engine
pub mod JobScreen
mod Tests
