-- ===== src/Uploads.antt =====
-- services/uploads.py: the folder of uploaded files.
pub mod Name
pub mod Legal
pub mod Folder
pub mod Stream
pub mod Lookup
pub mod Writing
pub mod Outcome
pub mod Removal
pub mod Tests
