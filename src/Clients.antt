-- ===== src/Clients.antt =====
-- app/clients/product_client.py and app/clients/payment_client.py: how the Order service reaches the
-- Product and the Payment service.
pub mod ProductClient
pub mod PaymentClient
