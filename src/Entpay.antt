-- ===== src/Entpay.antt =====
-- The payment gateway of entpay.
pub mod Store
