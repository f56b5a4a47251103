-- ===== src/Ingestion.antt =====
-- backend/webhooks/razorpay_handler.py and backend/integrations/normalizer.py.
pub mod Json
pub mod Normalizer
pub mod Webhook
