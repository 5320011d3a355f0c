-- ===== src/Gateway/Codec.antt =====
-- `encode` and `decode` of the messages that the client exchanges with the gateway, in
-- clientlibs/js/proto/apigateway/apigateway.ts.
pub mod Requests
pub mod Replies
pub mod Points
pub mod RequestTrips
pub mod ReplyTrips
pub mod PointTrips
pub mod Deliveries
pub mod Collections
pub mod Profiles
pub mod Feedback
pub mod Plain
pub mod Answers
