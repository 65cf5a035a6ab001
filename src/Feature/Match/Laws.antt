-- ===== src/Feature/Match/Laws.antt =====
-- The comparison of a baked feature with a request is transitive.
