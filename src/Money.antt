-- ===== src/Money.antt =====
-- internal/money/money.go: exact decimal arithmetic on amounts that cross the API as text.
pub mod Rat
pub mod Decimal
pub mod Amount
