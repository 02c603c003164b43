-- ===== src/Scanner.antt =====
-- internal/scanner: the events of a block that go to the outbox (matched_events.go, trx_block.go,
-- transfer_key.go), and the scans of native TRX transfers and of a TRC-20 contract (poller.go,
-- scope_lease.go). Parameters:
-- the set of watched addresses (AddressSet), the outbox (eventOutbox), the answers of TronGrid, the
-- texts of an address and of an amount (hexToBase58, sunToTrx), and the text of a time. Block
-- numbers, amounts and times are natural numbers.
pub mod Match
pub mod Replicas
pub mod Reach
pub mod Trx
pub mod Steps
pub mod Trc20
pub mod Matched
pub mod Advance
pub mod Examples
