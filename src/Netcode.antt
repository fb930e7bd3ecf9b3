-- ===== src/Netcode.antt =====
-- packages/netcode/src: pose.ts and client.ts, what a client keeps of the messages of a table.
-- Poses are of any type, and the interpolation between two of them, which is floating-point, is an
-- argument: it is given the part of the way as a number over another.
pub mod Pose
pub mod Buffer
pub mod Client
pub mod Received
mod Examples
