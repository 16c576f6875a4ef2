-- ===== src/Frame.antt =====
-- src/frame/frame.ts with the frame types of src/types.ts and the type check of src/schemas.ts.
pub mod Types
pub mod Words
pub mod Serialize
pub mod Parse
pub mod Wire
pub mod RoundTrip
pub mod Truncated
mod Tests
