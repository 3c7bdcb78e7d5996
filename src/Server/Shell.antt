-- ===== src/Server/Shell.antt =====
-- `run_shell` of crates/rustafari-server/src/main.rs. What the line editor of the rustyline crate returns
-- for each prompt is an event; an entered line comes with what the system makes of the next save of the
-- catalog.
pub mod Sessions
pub mod Saves
use Prim.Native.String.{◌++◌ as ◌+++◌}
use rustafari_db.Common.{
  ℕ, String, Bool, true, false, ◌||◌, List, [], ◌∷◌, ◌++◌, Option, none, some, map, length,
  if◌then◌else◌, ◌⊎◌,
}
use rustafari_db.Common.Decimal.{show_ℕ}
use rustafari_db.Core.Catalog
use rustafari_db.Core.Catalog.{CatalogSnapshot}
use rustafari_db.Core.Error.{Result, ok, err, panic, display}
use rustafari_db.Core.Host.{Host}
use rustafari_db.Core.Row.{Row}
use rustafari_db.Core.Value.{Value}
use rustafari_db.Sql.Ast.{Statement}
use rustafari_db.Executor.State
use rustafari_db.Executor.State.{SessionState, list_databases, list_tables}
use rustafari_db.Executor.Read.{ExecutionResult, rows, rows_affected}
use rustafari_db.Executor.SqlExecutor.{execute}
use rustafari_db.Server.Text.{is_empty, trim, trim_semicolons, eq_ignore_ascii_case, strip_prefix}

-- A line that is entered, the end of the input, an interrupt, and any other error of the editor. A
-- save of the catalog that fails has a text.
pub data Event : Type 0 where
  entered : String → Option String → Event
  eof interrupted : Event
  editor_error : String → Event

-- What the shell does with a line.
pub data Command : Type 0 where
  nothing leave help show_databases show_tables : Command
  run : String → Command

-- `DESCRIBE TABLE t` in lower case is rewritten. The two tests of the prefixes are those that
-- `strip_prefix` makes again.
unfoldable pub sql_of : String → String → String
unfolding trim trim_semicolons strip_prefix
sql_of line line_lower = elim (strip_prefix "describe table " line_lower) [
  | some rest ↦ "DESCRIBE " +++ trim (trim_semicolons rest)
  | none ↦ elim (strip_prefix "desc table " line_lower) [
    | some rest ↦ "DESCRIBE " +++ trim (trim_semicolons rest)
    | none ↦ line
  ]
]

-- `line_lower` is the line without its semicolons; nothing lowers its case.
unfoldable pub command_of : String → Command
unfolding trim trim_semicolons eq_ignore_ascii_case sql_of
command_of entered_line =
    let line = trim entered_line in
    let line_lower = trim (trim_semicolons line) in
    if is_empty line
    then nothing
    else if eq_ignore_ascii_case line "exit" || eq_ignore_ascii_case line "quit"
    then leave
    else if eq_ignore_ascii_case line_lower "help"
    then help
    else if eq_ignore_ascii_case line_lower "show databases"
    then show_databases
    else if eq_ignore_ascii_case line_lower "show tables"
    then show_tables
    else run (sql_of line line_lower)

abbrev pub help_lines : List String
help_lines =
    "  SHOW DATABASES          - list databases (namespaces)"
    ∷ "  SHOW TABLES             - list tables in default database (public)"
    ∷ "  CREATE TABLE name (col type, ...)  - create table (use db.table for a database)"
    ∷ "  DESCRIBE table  - show table columns (name, type, nullable)"
    ∷ "  INSERT INTO table VALUES (v1, v2), ...  - insert rows"
    ∷ "  SELECT cols FROM table [WHERE ...] [LIMIT n]  - query"
    ∷ "  exit / quit             - exit shell" ∷ []

abbrev pub database_lines : List String → List String
database_lines [] =
    "(no databases; create a table in a namespace, e.g. CREATE TABLE mydb.mytable (...))" ∷ []
database_lines (d ∷ ds) = (d ∷ ds) ++ ("(" +++ (show_ℕ (length (d ∷ ds)) +++ " database(s))")) ∷ []

abbrev pub table_lines : List String → List String
table_lines [] = "(no tables in 'public'; use CREATE TABLE to create one)" ∷ []
table_lines (t ∷ ts) = (t ∷ ts) ++ ("(" +++ (show_ℕ (length (t ∷ ts)) +++ " table(s))")) ∷ []

-- How the loop ends: as the function returns, by a panic, or not in the events given.
pub data Ending : Type 0 where
  returned panicked waiting : Ending
  failed : String → Ending

-- The session, the lines printed, the snapshots written to the catalog's file, the lines given to
-- the editor's history, and whether the editor was told to save it.
pub record Shell (h : Host) : Type 0 where
  pub session : SessionState h
  pub printed : List String
  pub saved : List CatalogSnapshot
  pub history : List String
  pub history_saved : Bool

abbrev pub is_panic {ℓ} : {A : Type ℓ} → Result A → Bool
is_panic (ok a) = false
is_panic (err e) = false
is_panic panic = true

module _ {h : Host} (debug : Value h → String) (to_uppercase : String → String)
    (parser : String → List Statement ⊎ String) where
  -- `{:?}` of a list of values.
  abbrev debug_values : List (Value h) → String
  debug_values [] = ""
  debug_values (v ∷ []) = debug v
  debug_values (v ∷ w ∷ vs) = debug v +++ (", " +++ debug_values (w ∷ vs))

  unfoldable pub result_lines : ExecutionResult h → List String
  unfolding show_ℕ
  result_lines (rows rs) =
      map (λ r. "[" +++ (debug_values r.values +++ "]")) rs
      ++ ("(" +++ (show_ℕ (length rs) +++ " row(s))")) ∷ []
  result_lines (rows_affected n) = ("Rows affected: " +++ show_ℕ n) ∷ []

  abbrev pub print : List String → Shell h → Shell h
  print lines s = record s { printed = s.printed ++ lines }

  -- `save_catalog`, and the warning where it fails.
  unfoldable pub save_catalog : Option String → Shell h → Shell h
  unfolding Catalog.to_snapshot
  save_catalog none s = record s { saved = s.saved ++ Catalog.to_snapshot s.session.catalog ∷ [] }
  save_catalog (some e) s = print (("Warning: could not persist catalog: " +++ e) ∷ []) s

  abbrev pub after_sql : Option String → Result (ExecutionResult h) → Shell h → Shell h
  after_sql save (ok r) s = save_catalog save (print (result_lines r) s)
  after_sql save (err e) s = print (("Error: " +++ display e) ∷ []) s
  after_sql save panic s = s

  -- A text run on the session: its outcome, and the shell after it.
  unfoldable pub run_sql : String → Option String → Shell h → Bool × Shell h
  unfolding execute result_lines save_catalog display
  run_sql sql save s =
      let (outcome, session) = execute debug to_uppercase parser sql s.session in
      (is_panic outcome, after_sql save outcome (record s { session = session }))

  abbrev remember : String → Shell h → Shell h
  remember line s = record s { history = s.history ++ line ∷ [] }

  -- The rest of the loop's body, once the command of a line is known, and the rest of the loop.
  unfoldable pub run_command :
      (Shell h → Ending × Shell h) → String → Option String → Command → Shell h → Ending × Shell h
  unfolding run_sql list_databases list_tables trim
  run_command rest text save nothing s = rest s
  run_command rest text save leave s =
      (returned, record (remember (trim text) s) { history_saved = true })
  run_command rest text save help s = rest (print help_lines (remember (trim text) s))
  run_command rest text save show_databases s =
      rest (print (database_lines (list_databases s.session)) (remember (trim text) s))
  run_command rest text save show_tables s =
      rest (print (table_lines (list_tables s.session none)) (remember (trim text) s))
  run_command rest text save (run sql) s =
      let (stop, s') = run_sql sql save (remember (trim text) s) in
      elim stop [ true ↦ (panicked, s') | false ↦ rest s' ]

  unfoldable pub shell_loop : List Event → Shell h → Ending × Shell h
  unfolding command_of run_command
  shell_loop [] s = (waiting, s)
  shell_loop (eof ∷ _) s = (returned, s)
  shell_loop (interrupted ∷ es) s = shell_loop es s
  shell_loop (editor_error e ∷ _) s = (failed e, s)
  shell_loop (entered text save ∷ es) s =
      let rest = shell_loop es in run_command rest text save (command_of text) s

  unfoldable pub run_shell : List Event → Shell h → Ending × Shell h
  unfolding shell_loop
  run_shell es s = shell_loop es (
      print
        ("RustafariDB shell. Type SQL or 'exit' to quit. Type 'help' for supported commands.\n"
          ∷ [])
        s)

  -- The arm of `main` for one statement: an error of the statement, or of the save, ends it.
  unfoldable pub run_query : String → Option String → Shell h → Ending × Shell h
  unfolding execute result_lines save_catalog display
  run_query sql save s =
      let (outcome, session) = execute debug to_uppercase parser sql s.session in
      let s' = record s { session = session } in
      elim outcome [
        | ok r ↦ elim save [
          | none ↦ (returned, save_catalog none (print (result_lines r) s'))
          | some e ↦ (failed e, print (result_lines r) s')
        ]
        | err e ↦ (failed (display e), s')
        | panic ↦ (panicked, s')
      ]

-- The session that `main` starts with: new, with the catalog of the file, if there is one and it can be
-- read.
unfoldable pub start_session : {h : Host} → Option CatalogSnapshot → SessionState h
unfolding Catalog.load_snapshot
start_session none = State.new
start_session (some snap) = record State.new { catalog = Catalog.load_snapshot Catalog.new snap }
