-- ===== src/Capture.antt =====
-- capture.py: framing, the PCAPNG writer and the capturing transport; and the capture of packets that
-- are logged.
pub mod Frames
pub mod Pcapng
pub mod Transport
pub mod LogCapture
