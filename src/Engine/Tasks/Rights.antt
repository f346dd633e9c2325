-- ===== src/Engine/Tasks/Rights.antt =====
-- Who may get a task by reassignment.
