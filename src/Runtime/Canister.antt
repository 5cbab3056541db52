-- ===== src/Runtime/Canister.antt =====
-- ic-kit-runtime/src/canister.rs: a canister, its system calls and the processing of its messages.
pub mod Task
pub mod State
pub mod Guard
pub mod Replies
pub mod Cycles
pub mod Calls
pub mod System
pub mod Take
pub mod Message
pub mod Frame
pub mod Silent
pub mod Conserve
pub mod Answers
pub mod Pending
pub mod Live
pub mod Owner
pub mod Track
pub mod Tracked
pub mod Answered
pub mod ReplyOnce
pub mod Resumed
pub mod Delivered
pub mod Refund
pub mod Permissions
pub mod Faults
