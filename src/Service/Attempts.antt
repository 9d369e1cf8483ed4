-- ===== src/Service/Attempts.antt =====
-- The attempts of the jobs in every state that the program can reach.
