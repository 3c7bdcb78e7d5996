-- ===== src/Server/Shell/Sessions.antt =====
-- The session that the shell of crates/rustafari-server/src/main.rs leaves: that of the SQL texts of its
-- lines.
use rustafari_db.Common.{
  ◌≡◌, refl, ◌∙◌, ap, subst, sym, String, true, false, List, [], ◌∷◌, ◌++◌, Option, none, some, ◌⊎◌,
}
use rustafari_db.Core.Error.{Result, ok, err, panic}
use rustafari_db.Core.Host.{Host}
use rustafari_db.Core.Value.{Value}
use rustafari_db.Sql.Ast.{Statement}
use rustafari_db.Sql.Statements.{sql_to_plan}
use rustafari_db.Executor.State.{SessionState}
use rustafari_db.Executor.Read.{ExecutionResult}
use rustafari_db.Executor.Consistency.{IsConsistent}
use rustafari_db.Executor.SqlExecutor.{execute}
use rustafari_db.Executor.SqlExecutor.History.{Reach, ran, Fits, Reach-IsConsistent}
use rustafari_db.Server.Text.{trim}
use rustafari_db.Server.Shell.{
  Event, entered, eof, interrupted, editor_error, Command, nothing, leave, help, show_databases,
  show_tables, run, command_of, Shell, is_panic, after_sql, save_catalog, run_sql, run_command,
  panicked, shell_loop, run_shell, Ending,
}

abbrev pub with_command : Command → List String → List String
with_command nothing more = more
with_command leave more = []
with_command help more = more
with_command show_databases more = more
with_command show_tables more = more
with_command (run sql) more = sql ∷ more

-- The SQL texts of the lines, up to the first that leaves the shell, the end of the input or an error
-- of the editor.
abbrev pub texts_of : List Event → List String
texts_of [] = []
texts_of (eof ∷ _) = []
texts_of (interrupted ∷ es) = texts_of es
texts_of (editor_error _ ∷ _) = []
texts_of (entered line _ ∷ es) = let more = texts_of es in with_command (command_of line) more

module _ {h : Host} (debug : Value h → String) (up : String → String)
    (parser : String → List Statement ⊎ String) where
  -- The texts one after the other; a panic ends the run.
  abbrev pub run_texts : List String → SessionState h → SessionState h
  run_texts [] s = s
  run_texts (sql ∷ more) s =
      let (outcome, s') = execute debug up parser sql s in
      elim (is_panic outcome) [ true ↦ s' | false ↦ run_texts more s' ]

  save_catalog-session :
      (save : Option String) (s : Shell h)
      → (save_catalog debug up parser save s).session ≡ s.session
  unfolding save_catalog
  save_catalog-session none s = refl
  save_catalog-session (some e) s = refl

  after_sql-session :
      (save : Option String) (o : Result (ExecutionResult h)) (s : Shell h)
      → (after_sql debug up parser save o s).session ≡ s.session
  after_sql-session save (ok r) s = save_catalog-session save _
  after_sql-session save (err e) s = refl
  after_sql-session save panic s = refl

  -- The texts of a command, before those of the lines after it.
  run_command-run_texts :
      (rest : Shell h → Ending × Shell h) (more : List String) (text : String)
      (save : Option String) (c : Command) (s : Shell h)
      → ((z : Shell h) → (rest z).1.session ≡ run_texts more z.session)
      → (run_command debug up parser rest text save c s).1.session
        ≡ run_texts (with_command c more) s.session
  unfolding run_command run_sql
  run_command-run_texts rest more text save nothing s k = k s
  run_command-run_texts rest more text save leave s k = refl
  run_command-run_texts rest more text save help s k = k _
  run_command-run_texts rest more text save show_databases s k = k _
  run_command-run_texts rest more text save show_tables s k = k _
  run_command-run_texts rest more text save (run sql) s k =
      let (o, s') = execute debug up parser sql s.session in
      let z =
        (run_sql debug up parser sql save (record s { history = s.history ++ trim text ∷ [] })).1 in
      let after : z.session ≡ s' = after_sql-session save o _ in
      elim (is_panic o)
        as (λ b.
          (elim b as (λ _. Ending × Shell h) [ true ↦ (panicked, z) | false ↦ rest z ]).1.session
          ≡ (elim b as (λ _. SessionState h) [ true ↦ s' | false ↦ run_texts more s' ])) [
            | true ↦ after
            | false ↦ k z ∙ ap (run_texts more) after
          ]

  -- The session that the shell leaves, for any lines, is that of their SQL texts run in order.
  pub shell_loop-run_texts :
      (es : List Event) (s : Shell h)
      → (shell_loop debug up parser es s).1.session ≡ run_texts (texts_of es) s.session
  unfolding shell_loop
  shell_loop-run_texts [] s = refl
  shell_loop-run_texts (eof ∷ es) s = refl
  shell_loop-run_texts (interrupted ∷ es) s = shell_loop-run_texts es s
  shell_loop-run_texts (editor_error e ∷ es) s = refl
  shell_loop-run_texts (entered text save ∷ es) s =
      run_command-run_texts (shell_loop debug up parser es) (texts_of es) text save
        (command_of text) s (shell_loop-run_texts es)

  -- Every text that is run fits the session that it is run on.
  abbrev pub AllFit : List String → SessionState h → Type 0
  AllFit [] s = Unit
  AllFit (sql ∷ more) s =
      Fits debug up parser (sql_to_plan up parser sql) s
      × AllFit more (execute debug up parser sql s).1

  run_texts-Reach :
      (texts : List String) (s : SessionState h)
      → AllFit texts s
      → Reach debug up parser s
      → Reach debug up parser (run_texts texts s)
  run_texts-Reach [] s f r = r
  run_texts-Reach (sql ∷ more) s f r =
      let (o, s') = execute debug up parser sql s in
      let next : Reach debug up parser s' = ran sql r f.0 in
      elim (is_panic o)
        as (λ b. Reach debug up parser (elim b [ true ↦ s' | false ↦ run_texts more s' ])) [
          | true ↦ next
          | false ↦ run_texts-Reach more s' f.1 next
        ]

  -- The session that the shell leaves, for any lines and any session to start with, is the one that
  -- the SQL texts of its lines give, run in order up to the line that leaves it, the end of the input,
  -- an error of the editor or a panic: HELP, the SHOW commands, interrupts and empty lines change
  -- nothing of the session, and no text is run twice or left out.
  pub run_shell-run_texts :
      (es : List Event) (s : Shell h)
      → (run_shell debug up parser es s).1.session ≡ run_texts (texts_of es) s.session
  unfolding run_shell
  run_shell-run_texts es s = shell_loop-run_texts es _

  -- The stores of the session that the shell leaves are in step, if SQL texts led to the session that
  -- it started with, and every text fits the session that it runs on.
  run_shell-IsConsistent :
      (es : List Event) (s : Shell h)
      → Reach debug up parser s.session
      → AllFit (texts_of es) s.session
      → IsConsistent (run_shell debug up parser es s).1.session
  run_shell-IsConsistent es s r f =
      subst IsConsistent (sym (run_shell-run_texts es s))
        (Reach-IsConsistent debug up parser (run_texts-Reach (texts_of es) s.session f r))
