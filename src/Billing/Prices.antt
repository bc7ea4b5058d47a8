-- ===== src/Billing/Prices.antt =====
-- The prices that charging reads.
use manager_key_pro.Billing.Pricing.{Pricing}
