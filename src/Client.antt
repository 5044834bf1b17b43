-- ===== src/Client.antt =====
-- src/a2a_hub/client.py: the command line client.
pub mod Effect
pub mod Settings
pub mod Calls
pub mod Reading
pub mod Arguments
pub mod Inbox
pub mod Host
pub mod Mailbox
pub mod Command
pub mod Agents
pub mod Main
pub mod Marking
pub mod Tasks
pub mod Sending
