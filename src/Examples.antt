-- ===== src/Examples.antt =====
-- The theorems at concrete inputs: a small Feed Service, Fanout Worker and Post Service.
mod Codec
mod Pages
mod Hydrating
mod Feeds
mod Posting
mod Queues
mod Timelines
mod Warming
mod Working
mod Baseline
mod Configured
mod Signals
mod Deleting
mod Caching
