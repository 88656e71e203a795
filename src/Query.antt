-- ===== src/Query.antt =====
-- packages/engine/src/query: what a query and a practice are cut into before they are encoded.
-- Text is here its list of code points, as `for (const c of text)` and `Array.from` give them.
pub mod Projection
pub mod Lease
pub mod Catalog
pub mod Keyword
