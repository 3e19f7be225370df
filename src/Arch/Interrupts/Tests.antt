-- ===== src/Arch/Interrupts/Tests.antt =====
-- Masks as firmware leaves them, with every line closed.

