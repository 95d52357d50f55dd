-- ===== src/Pool/Workers/Asleep.antt =====
-- The wait of a worker for work, and the notifications that come too early.
