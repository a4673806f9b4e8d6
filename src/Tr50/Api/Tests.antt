-- ===== src/Tr50/Api/Tests.antt =====
-- Identifiers and a payload on concrete values.
