-- ===== src/Finops.antt =====
-- finops: what tenants may spend and what they have spent.
pub mod Budget
pub mod Pricing
pub mod Attribution
pub mod Ledger
