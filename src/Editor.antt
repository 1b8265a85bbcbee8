-- ===== src/Editor.antt =====
-- The remote text editor, portal_mcp_server/remote_text_editor.py.
pub mod Lines
pub mod Read
pub mod Patch
pub mod Write
pub mod Session
pub mod RoundTrip
