-- ===== src/Marketplace.antt =====
-- internal/modules/marketplace: multi-vendor orders.
pub mod Split
