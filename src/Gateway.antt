-- ===== src/Gateway.antt =====
-- clientlibs/js/proto/apigateway/apigateway.ts: the messages of the gateway's public API.
pub mod Payload
pub mod Messages
pub mod Wire
pub mod Codec
pub mod Service
