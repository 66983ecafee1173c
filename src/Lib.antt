-- ===== src/Lib.antt =====
-- Luminix: an in-memory database of tables, records and indexes, with nested transaction levels,
-- statistics, a small query parser, and a cipher for texts.
--
-- The parts and how they meet. src/database.c holds the database: a `Database` has an array of
-- tables, a `Table` has columns, a linked list of records and an index manager. The operations by
-- table name look the table up, open a local transaction if none is open, call the operation on the
-- table, and commit or roll back by its code. src/query_engine.c tests a query, parses it by
-- src/parser.c and asks `db_execute_query` of the database. src/transaction.c, src/security.c and
-- src/index.c stand alone. src/json_io.c writes a database to a file as JSON, and reads one by
-- db_create, db_add_table and table_insert_record of src/database.c.
--
-- Which file models which part:
--   Base: names passed on from the libraries; tests, lists, the C type `int`, and C strings.
--   Schema: the types of src/types.h and src/database.h, with Schema.Stats for the statistics and
--     their updates and Schema.Floats for comparison of `float` and `double`.
--   Indexes: the index manager of a table and the index operations, which keep no data in the code.
--   Table: generate_record_id, table_insert_record, table_find_record, table_update_record and
--     table_delete_record; Table.Invariant is what a well-formed table is, Table.Accepts and
--     Table.Clashes what an insertion needs and what an update must not do, said of the records.
--   Database.Transactions: db_begin_transaction, db_commit_transaction, db_rollback_transaction,
--     and the local transaction of the record operations.
--   Database.Tables: db_create, db_get_table, db_add_table.
--   Database.Records: db_insert_record, db_find_record, db_update_record, db_delete_record,
--     db_batch_insert_records.
--   Database.Fields: db_find_record_by_field, db_find_all_records_by_field,
--     db_delete_records_by_field.
--   Database.IndexOps: db_create_index, db_drop_index.
--   Database.Maintenance: db_execute_query with its stubs, statistics, db_vacuum, db_optimize,
--     counts and db_list_tables.
--   Database.Invariant and Database.Reach: the well-formed database, and the calls as a step
--     relation.
--   Security: src/security.c. Parser: src/parser.c. QueryEngine: src/query_engine.c.
--   Storage: src/storage.c. Txn: src/transaction.c. IndexStore: src/index.c. Utils: the cases and
--     ends of strings of src/utils.c and validate_table_name; Utils.Strings its other functions on
--     strings, and Utils.Arrays its dynamic array. TypeNames: field_type_to_string and
--     string_to_field_type.
--   Json: src/json_io.c. Json has the tokens, Json.Lexer what json_parse_token leaves of a text,
--     Json.Escape json_escape_string, Json.Skip json_skip_token_value, Json.Stats
--     json_get_stats_string, json_get_type and validate_json, Json.Minify json_compress, Json.Numbers
--     `%d` and `atoi`. Json.Writer is the growing buffer; Json.Save and Json.Save.Whole are the
--     json_serialize functions and db_save_to_file, with the text they are to write in
--     Json.Save.Texts. Json.Load is json_parse_field_value, Json.Load.Loops the loops over an object
--     and an array that the parsers have in common, Json.Load.Definitions
--     json_parse_database_metadata and json_parse_table_schema, Json.Load.Rows
--     json_parse_table_records, and Json.Load.File db_load_from_file; a crash of the program is an outcome
--     of its own there. Json.Row is record_to_json and
--     json_to_record, and Json.TableText table_to_json and json_to_table.
--   Tests: concrete data and runs.
--
-- How the state corresponds to the code. The object that a call works on (`db`, `table`) is not
-- NULL; another pointer argument is an Option where the code tests it for NULL. An array of fields
-- that is passed in is a function from its index. Counts with their array (`table_count`,
-- `field_count`, `index_count`) are the lengths of lists, first element or first node first. The
-- pointer that db_get_table returns stands for the first table of that name; `put_table` writes
-- through it. The static variable global_counter is kept beside the database. `Env` is what the
-- environment answers in one call: the time, and whether each allocation is granted, numbered in
-- the order of the code. A union carries the reading of each of its members; `Union` is how a write
-- to one changes the others. A parser of src/json_io.c takes the bytes from its position on, and
-- returns those that are left. A serializer takes and returns the buffer, and `none` is its `false`.
-- `CLib` is what the C library prints for floating numbers and times, and `FileSystem` whether a file
-- opens and how much of a write it takes; a file is its bytes.
--
-- Numbers. An `int` is a ℤ, and `n + 1` on it wraps around at INT_MAX. Counts that start at 0 and
-- are lowered only when something was there are ℕ. The 64-bit counters of the statistics have no
-- bound. A `float` or `double` is its bit pattern. The hash of src/security.c is an `unsigned long`
-- of 64 bits, and so is the capacity of the buffer of src/json_io.c. Fuel is needed in src/json_io.c
-- alone, where the theorems named after `ends` and `returns` show that it is enough: one round for
-- each byte that is left in the loops, twice that in json_skip_token_value, and 64 rounds for the
-- doubling of a capacity. Elsewhere every loop is structural on a list or on a count.
--
-- Not modelled: memory that is freed, except in Txn, where it is the point; allocation failures in
-- src/parser.c and src/query_engine.c, of the arrays of a new manager in src/index.c, and in the
-- parsers of src/json_io.c; the depth of the stack, which the recursion of json_skip_token_value is
-- taken to have; log lines, messages and printing; validate_field_value and
-- string_to_field_value of src/database.c, which nothing calls; the functions of src/database.c that
-- return ERROR_NOT_IMPLEMENTED; files, the console and time (src/main.c, src/cli.c, src/backup.c,
-- src/export_import.c, and the opening of files in src/json_io.c); JSON texts of query results, path
-- queries, merging and the pretty printer of src/json_io.c; the rest of src/utils.c, which is files,
-- the console, time, and numbers read by the C library.
pub mod Base
pub mod Schema
pub mod Indexes
pub mod Table
pub mod Database
pub mod Security
pub mod Parser
pub mod QueryEngine
pub mod Txn
pub mod TypeNames
pub mod IndexStore
pub mod Utils
pub mod Json
pub mod Storage
mod Tests
