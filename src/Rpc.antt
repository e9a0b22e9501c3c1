-- ===== src/Rpc.antt =====
-- include/lsp/JsonRpcServer.h and RequestContext.h: the message loop of the server. A reader takes
-- messages from the input and queues them; one worker handles them in order; cancellation and
-- superseded edits reach a message while it waits or runs.
pub mod Types
pub mod Register
pub mod Process
pub mod Steps
pub mod Unregister
pub mod Keeps
pub mod Tracked
pub mod Later
pub mod Stopped
pub mod Cancel
pub mod Supersede
pub mod Replies
pub mod Drain
pub mod Reader
pub mod Accepted
pub mod Input
pub mod Framing
pub mod Received
pub mod Feeds
pub mod Ends
mod Streams
mod Examples
