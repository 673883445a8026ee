-- ===== src/Chat.antt =====
-- api/internal/logic/chat: asking, resuming and cancelling a chat run.
pub mod Lifecycle
pub mod Conduct
pub mod Moves
pub mod Diagram
pub mod Soundness
pub mod Events
pub mod Answers
pub mod Controller
