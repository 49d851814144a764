-- ===== src/Smp/Tests.antt =====
-- Runs of src/drivers/smp.c.
