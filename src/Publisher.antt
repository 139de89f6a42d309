-- ===== src/Publisher.antt =====
-- frontend/src/components/publisher/MessagePublisher.tsx: the placeholders of a message, the tabs of
-- the form and their fields, the saved templates, and sending.
pub mod Placeholders
pub mod Tabs
pub mod Send
pub mod Fields
pub mod Templates
