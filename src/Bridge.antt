-- ===== src/Bridge.antt =====
-- crates/np2ptp-bridge: the gateway from BitTorrent content, checked against the torrent's pieces.
pub mod Pieces
pub mod Gateway
pub mod Bencode
