-- ===== src/Tests.antt =====
-- Concrete inputs, test runs, and instances of the theorems.
mod Samples
mod LedgerTests
mod LegacyTests
mod TransferTests
mod MiddlewareTests
mod CustomerTests
mod AuthTests
mod RateLimitTests
mod StatementTests
mod OnboardingTests
mod RouteTests
mod MigrationTests
mod ReceiptTests
