-- ===== src/Json/Save/Whole/File.antt =====
-- src/json_io.c: db_save_to_file writes the text of the database.
