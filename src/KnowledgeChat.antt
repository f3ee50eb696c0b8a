-- ===== src/KnowledgeChat.antt =====
-- knowledge_chat.py: the chat that answers from the user's documents only, one turn of it.
pub mod Text
pub mod World
pub mod Lines
pub mod Tools
pub mod History
pub mod Calls
pub mod Run
pub mod Induction
pub mod Ending
pub mod Passages
pub mod Budget
pub mod Conversation
pub mod Evidence
pub mod Grounding
pub mod Tests
pub mod Context
