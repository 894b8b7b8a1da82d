-- ===== src/Home.antt =====
-- The data behind the home page: frontend/lib/home-data.ts, frontend/lib/home-lists.ts,
-- frontend/lib/hero-graph.ts and frontend/lib/entity-routes.ts.
pub mod Shuffle
pub mod Clusters
pub mod Graph
mod Tests
