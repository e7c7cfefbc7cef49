-- ===== src/Providers.antt =====
-- The calls of the model providers: the kinds of errors, the cooldowns, the choice of a provider.
pub mod ProviderError
pub mod Cooldown
pub mod Failover
