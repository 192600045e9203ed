-- ===== src/Webhooks/Starvation.antt =====
-- The limit of a pass counts the deliveries of endpoints that are switched off.
