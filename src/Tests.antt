-- ===== src/Tests.antt =====
-- Concrete databases and requests: tests of the definitions, and the theorems at these inputs.
pub mod Fixtures
mod CheckoutTests
mod BrokerTests
mod OutboxTests
mod PaginationTests
mod OrdersTests
mod RetryTests
mod IdempotencyTests
mod ServiceTests
mod JobsTests
mod ProblemsTests
mod ReposTests
mod TopologyTests
mod DemoTests
mod PublisherTests
mod ConfigTests
mod SeedTests
mod StoreTests
mod RaceTests
mod BackgroundTests
mod QueueTests
