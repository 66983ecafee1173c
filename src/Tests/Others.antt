-- ===== src/Tests/Others.antt =====
-- Runs of the files beside src/database.c.
use luminix_experience_platf.IndexStore.Laws.{remove_index_lem}
use luminix_experience_platf.IndexStore.{
  index_manager_get_count, index_manager_remove_index, index_manager_get_index,
  index_manager_add_index, SizedIndex, Manager,
}
use luminix_experience_platf.Security.Laws.{
  security_validate_token_iff, security_decrypt-security_encrypt,
}
use luminix_experience_platf.QueryEngine.Laws.{query_validate-parse_query, statement_type}
use luminix_experience_platf.Parser.Conditions.{parse_condition_lem, IsFree, ge, text}
use luminix_experience_platf.Utils.Strings.{string_split, join_strings}
use luminix_experience_platf.Utils.Strings.Laws.{string_split-join_strings}
use luminix_experience_platf.Storage.{Storage, FileSystem, storage_read, storage_write}
use luminix_experience_platf.Storage.Laws.{storage_read-storage_write}
use luminix_experience_platf.Txn.Laws.{freed_once, rollback, run}
use luminix_experience_platf.Txn.{free_operations, transaction_free, txn_active, Transaction}
use luminix_experience_platf.Security.{
  is_hex, token_prefix, security_decrypt, security_encrypt, security_validate_token,
}
use luminix_experience_platf.Schema.{error_not_found, index_hash, success, ErrorCode}
use luminix_experience_platf.QueryEngine.{is_one_of, first_word, query_validate}
use luminix_experience_platf.Parser.Laws.{select_table_lem}
use luminix_experience_platf.Parser.{
  has_char, unquote, trim_end, trim_spaces, take_until, skip_spaces, white, parse_query, find_sub,
  parse_statement, parse_condition, extract_token, Query,
}
use luminix_experience_platf.Database.Maintenance.{query_select}
use luminix_experience_platf.Base.{
  ◌&&◌, ◌+◌, ℤ, Bool, str_eq, is_some, is_prefix, codes, length, Bytes, All, ◌≤◌, pos, true, false,
  [], ◌∷◌, ◌++◌, none, some, ◌≡◌, ◌≢◌, ◌↔◌, refl, arith, if◌then◌else◌,
}

security_decrypt-security_encrypt_example :
    (cipher : Bytes) × (security_encrypt (some (codes "key")) true 7 ≡ (pos 0, cipher ++ 0 ∷ []))
    × (security_decrypt (some cipher) true 4 ≡ (pos 0, codes "key" ++ 0 ∷ []))
security_decrypt-security_encrypt_example =
    security_decrypt-security_encrypt (codes "key") 7 4
      (omega arith, (omega arith, (omega arith, tt))) (omega arith) (omega arith)

security_validate_token_iff_example :
    (security_validate_token (some (codes "admin_token_1f")) ≡ pos 1) ↔ (
      (digits : Bytes) × (codes "admin_token_1f" ≡ token_prefix ++ digits)
      × (1 ≤ length digits)
      × All (λ c. is_hex c ≡ true) digits)
security_validate_token_iff_example = security_validate_token_iff (codes "admin_token_1f")

parse_condition_lem_example :
    parse_condition (some (codes "age " ++ (text ge ++ codes " '30'")))
    ≡ some (record {
      field = trim_spaces (codes "age ");
      op = text ge;
      value = unquote (trim_spaces (codes " '30'"));
    })
parse_condition_lem_example =
    parse_condition_lem ge (codes "age ") (codes " '30'") age_free thirty_free
  where
    age_free : IsFree (codes "age ")
    age_free = (refl, (refl, (refl, (refl, tt))))

    thirty_free : IsFree (codes " '30'")
    thirty_free = (refl, (refl, (refl, (refl, (refl, tt)))))

abbrev view : Bytes
view = codes "select id from view_rows"

view_cut : extract_token view (codes "from") (white ++ codes "(Ww") ≡ some (codes "vie")
unfolding extract_token find_sub skip_spaces take_until trim_spaces trim_end is_prefix has_char
view_cut = refl

view_selects : (parse_statement view).0 ≡ query_select
unfolding parse_statement is_prefix
view_selects = refl

view_table : (parse_statement view).1 ≡ some (codes "vie")
unfolding parse_statement is_prefix extract_token find_sub skip_spaces take_until trim_spaces
    trim_end has_char
view_table = refl

select_table_lem_example : All (λ c. (c ≢ 87) × (c ≢ 119)) (codes "vie")
select_table_lem_example = select_table_lem view view_selects view_table

deletes : query_validate (some (codes " DELETE FROM users")) ≡ pos 1
unfolding query_validate first_word is_one_of skip_spaces str_eq
deletes = refl

query_validate-parse_query_example :
    (parsed : Query) × (parse_query (some (codes " DELETE FROM users")) ≡ some parsed)
    × (parsed.type ≡ statement_type (first_word 15 (skip_spaces (codes " DELETE FROM users"))))
query_validate-parse_query_example = query_validate-parse_query (codes " DELETE FROM users") deletes

abbrev txn : Transaction
txn = record { id = pos 1; state = txn_active; operations = some (some 64 ∷ none ∷ []) }

freed_once_example :
    (run (rollback ∷ []) (some txn)).1 ++ transaction_free (run (rollback ∷ []) (some txn)).0
    ≡ free_operations txn
freed_once_example = freed_once (rollback ∷ []) txn refl

abbrev by_age : SizedIndex
by_age = record {
  index = record { table_name = codes "users"; field_name = codes "age"; type = index_hash };
  size = 0;
}

abbrev manager : Manager
manager = record { indexes = by_age ∷ []; index_capacity = 16; max_indexes = pos 100 }

remove_index_lem_example :
    let r : ErrorCode × Manager =
      index_manager_remove_index manager (some (codes "users")) (some (codes "age")) in
    let found : Bool =
      is_some (index_manager_get_index manager (some (codes "users")) (some (codes "age"))) in
    (r.0 ≡ (if found then success else error_not_found))
    × (index_manager_get_count (some r.1) + (if found then 1 else 0)
        ≡ index_manager_get_count (some manager))
    × ((t' f' : Bytes)
        → str_eq (codes "users") t' && str_eq (codes "age") f' ≡ false
        → index_manager_get_index r.1 (some t') (some f')
          ≡ index_manager_get_index manager (some t') (some f'))
remove_index_lem_example = remove_index_lem manager (codes "users") (codes "age")

by_age_added : (index_manager_add_index true manager (some by_age)).0 ≡ success
unfolding index_manager_add_index
by_age_added = refl

string_split-join_strings_example :
    string_split (some (join_strings (codes "ab" ∷ codes "c d" ∷ []) (44 ∷ []))) (some (44 ∷ []))
    ≡ some (codes "ab" ∷ codes "c d" ∷ [])
unfolding trim_spaces has_char skip_spaces trim_end
string_split-join_strings_example =
    string_split-join_strings 44 (codes "ab") (codes "c d" ∷ [])
      (omega arith, refl, refl, (omega arith, refl, refl, tt))

abbrev disk : FileSystem
disk = record { opens = true; takes = λ n. some n }

abbrev store : Storage
store = record { fd_open = true; size = 3 }

storage_read-storage_write_example :
    let w : ℤ × Storage × Bytes =
      storage_write disk (codes "abc") store (some (codes "xy")) (pos 5) in
    (w.0 ≡ pos 2)
    × (storage_read w.2 w.1 true 2 (pos 5) ≡ (pos 2, codes "xy"))
    × (w.1.size ≡ length w.2)
storage_read-storage_write_example =
    storage_read-storage_write disk (codes "abc") store (codes "xy") 5 refl refl refl (omega arith)
