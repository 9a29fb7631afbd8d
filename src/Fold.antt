-- ===== src/Fold.antt =====
-- packages/fold: the event log's data model, its order, and the fold that materialises it.
pub mod Json
pub mod Schema
pub mod Order
pub mod Keys
pub mod State
pub mod Apply
pub mod Engine
pub mod Sensors
