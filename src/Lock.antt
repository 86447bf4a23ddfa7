-- ===== src/Lock.antt =====
-- Tailnet lock: internal/domain/tka.go and internal/handlers/tka.go.
-- tailscale.com/tka is a parameter, `TkaLib`. Every query of the database succeeds, and the handlers
-- of one tailnet run one after the other, as `tkaLock` makes them. A machine's rows come in the order
-- in which they are stored.
pub mod Chonk
pub mod Db
pub mod Tka
pub mod Ensures
pub mod Handlers
pub mod Registration
pub mod Requests
pub mod Invariant
pub mod Init
pub mod Disable
pub mod Stopped
