-- ===== src/Tests.antt =====
-- Runs of the theorems on concrete inputs. The child Data holds the inputs.
mod Data
mod Shards
mod Indexes
mod Nodes
mod Managers
mod Rebalances
mod Reloads
mod Heaps
mod Merging
mod Searches
mod Resolvers
mod Routes
mod Starts
mod Lives
mod Buckets
