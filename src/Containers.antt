-- ===== src/Containers.antt =====
-- Bounded containers: mruset and limitedmap (src/mruset.h, limitedmap.h).
pub mod MruSet
pub mod LimitedMap
mod Tests
