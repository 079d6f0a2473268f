-- ===== src/Http.antt =====
-- What the gateway uses of Go's package net/http: headers, requests and responses.
pub mod Header
pub mod Message
