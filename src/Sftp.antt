-- ===== src/Sftp.antt =====
-- crates/clift-transport/src: the SFTP side of the transport. wire.rs, errmap.rs and upload.rs are modelled.
pub mod Wire
pub mod Errors
pub mod Upload
