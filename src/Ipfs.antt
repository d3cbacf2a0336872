-- ===== src/Ipfs.antt =====
-- internal/ipfs/client.go: the validation of content identifiers, and the retries of a fetch.
pub mod Cid
pub mod Fetch
pub mod Store
