-- ===== src/Billing.antt =====
-- Charging (internal/billing): prices, quota periods, holds and the charge of a usage record.
pub mod Pricing
pub mod Period
pub mod Hold
pub mod Charge
pub mod Steps
pub mod ChargeSteps
pub mod Settlement
pub mod Renewal
pub mod Limits
pub mod Prices
pub mod Spending
pub mod Untouched
pub mod Row
pub mod Recorded
pub mod RoundTrip
