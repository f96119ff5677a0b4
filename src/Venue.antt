-- ===== src/Venue.antt =====
-- executor/venue.py and the adapters of a venue.
pub mod Types
