-- ===== src/Gateway.antt =====
-- apps/vor-gateway/src: the billing state. HTTP and the calls of the payment service are outside.
pub mod Records
pub mod Fields
pub mod Events
pub mod Billing
