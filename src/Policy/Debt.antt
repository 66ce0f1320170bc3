-- ===== src/Policy/Debt.antt =====
-- The work that a commit of a policy makes.
