-- ===== src/RateLimit/Windows.antt =====
-- The interval limiter over a cache that keeps what it stores.
