-- ===== src/Tests/Server.antt =====
-- The theorems on the shell, at runs of a few lines.
use rustafari_db.Common.{◌≡◌, refl, String, false, List, [], ◌∷◌, none, some, ◌⊎◌, inl}
use rustafari_db.Common.HashMap
use rustafari_db.Core.Catalog
use rustafari_db.Core.Error.{err, table_not_found}
use rustafari_db.Sql.Ast.{table_object, Statement}
use rustafari_db.Sql.Queries.{table_parts}
use rustafari_db.Sql.Statements.{sql_to_plan, parse_sql, first_to_plan, ast_to_plan, drop_to_plan}
use rustafari_db.Executor.State
use rustafari_db.Executor.State.{SessionState, table_meta}
use rustafari_db.Executor.Read.{find_table}
use rustafari_db.Executor.Write.{execute_drop_table}
use rustafari_db.Executor.Plan.{execute_node, execute_plan}
use rustafari_db.Executor.Plan.Reads.{data_of}
use rustafari_db.Executor.SqlExecutor.{execute}
use rustafari_db.Executor.SqlExecutor.Failures.{GivesInsert, execute-failed}
use rustafari_db.Server.Shell.{
  Event, entered, interrupted, Shell, command_of, run, run_sql, run_command, shell_loop, run_shell,
}
use rustafari_db.Server.Shell.Sessions.{texts_of, run_texts, run_shell-run_texts}
use rustafari_db.Server.Shell.Saves.{UpToDate, shell_loop-UpToDate}
use rustafari_db.Tests.Fixtures.{host}
use rustafari_db.Tests.Sql.{people_name}
use rustafari_db.Tests.Queries.{show_value}
use rustafari_db.Tests.History.{texts, capitals}

-- A statement in lower case is rewritten, one in capitals is run as it is, semicolon included.
lower_describe : command_of " describe table people ; " ≡ run "DESCRIBE people"
unfolding command_of
lower_describe = refl

upper_describe : command_of "DESCRIBE TABLE people;" ≡ run "DESCRIBE TABLE people;"
unfolding command_of
upper_describe = refl

abbrev new_shell : Shell host
new_shell = record {
  session = State.new;
  printed = [];
  saved = Catalog.to_snapshot Catalog.new ∷ [];
  history = [];
  history_saved = false;
}

abbrev lines : List Event
lines =
    entered "HELP;" none
    ∷ interrupted
    ∷ entered "  CREATE TABLE people (id BIGINT, name TEXT)" (some "disk full")
    ∷ entered "exit" none
    ∷ entered "DROP TABLE people" none
    ∷ []

one_creation : texts_of lines ≡ "CREATE TABLE people (id BIGINT, name TEXT)" ∷ []
unfolding command_of
one_creation = refl

run_shell-run_texts_example :
    (run_shell show_value capitals texts lines new_shell).1.session
    ≡ run_texts show_value capitals texts (texts_of lines) State.new
run_shell-run_texts_example = run_shell-run_texts show_value capitals texts lines new_shell

-- DROP TABLE people, whatever the text.
abbrev drop_people : String → List Statement ⊎ String
drop_people sql = inl (Statement.drop table_object (people_name ∷ []) ∷ [])

no_people :
    (execute {h = host} show_value capitals drop_people "DROP TABLE people" State.new).0
    ≡ err (table_not_found "public.people")
unfolding execute sql_to_plan parse_sql first_to_plan ast_to_plan drop_to_plan table_parts
    execute_plan execute_node execute_drop_table find_table table_meta Catalog.get_table
    Catalog.namespace_id HashMap.get
no_people = refl

execute-failed_example :
    ((execute {h = host} show_value capitals drop_people "DROP TABLE people" State.new).1.catalog
      ≡ Catalog.new)
    × ((data_of (execute show_value capitals drop_people "DROP TABLE people" State.new).1
          ≡ data_of {h = host} State.new)
        ⊎ GivesInsert (sql_to_plan {h = host} capitals drop_people "DROP TABLE people"))
execute-failed_example =
    execute-failed show_value capitals drop_people "DROP TABLE people" State.new
      (table_not_found "public.people") no_people

abbrev failing_lines : List Event
failing_lines = entered "DROP TABLE people" none ∷ entered "exit" none ∷ []

shell_loop-UpToDate_example :
    UpToDate (shell_loop show_value capitals drop_people failing_lines new_shell).1
unfolding shell_loop run_command run_sql command_of execute sql_to_plan parse_sql first_to_plan
    ast_to_plan drop_to_plan table_parts execute_plan execute_node execute_drop_table find_table
    table_meta Catalog.get_table Catalog.namespace_id HashMap.get
shell_loop-UpToDate_example =
    shell_loop-UpToDate show_value capitals drop_people failing_lines new_shell tt tt refl
