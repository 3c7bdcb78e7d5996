-- ===== src/Server/Shell/Saves.antt =====
-- The catalog's file of the shell of crates/rustafari-server/src/main.rs.
use rustafari_db.Common.{
  ◌≡◌, refl, ◌∙◌, ap, sym, String, true, false, List, [], ◌∷◌, ◌++◌, Option, none, some, ◌⊎◌,
}
use rustafari_db.Core.Catalog
use rustafari_db.Core.Catalog.{CatalogSnapshot}
use rustafari_db.Core.Error.{Result, RustafariError, ok, err, panic}
use rustafari_db.Core.Host.{Host}
use rustafari_db.Core.Value.{Value}
use rustafari_db.Sql.Ast.{Statement}
use rustafari_db.Executor.Read.{ExecutionResult}
use rustafari_db.Executor.SqlExecutor.{execute}
use rustafari_db.Executor.SqlExecutor.Failures.{execute-failed}
use rustafari_db.Server.Text.{trim}
use rustafari_db.Server.Shell.{
  Event, entered, eof, interrupted, editor_error, Command, nothing, leave, help, show_databases,
  show_tables, run, command_of, Shell, is_panic, after_sql, save_catalog, run_sql, run_command,
  shell_loop, Ending, panicked,
}

abbrev pub last {ℓ} : {A : Type ℓ} → List A → Option A
last [] = none
last (x ∷ []) = some x
last (x ∷ y ∷ xs) = last (y ∷ xs)

last-append_one {ℓ} : {A : Type ℓ} (xs : List A) (x : A) → last (xs ++ x ∷ []) ≡ some x
last-append_one [] x = refl
last-append_one (y ∷ []) x = refl
last-append_one (y ∷ z ∷ xs) x = last-append_one (z ∷ xs) x

-- Every save that the system is asked for succeeds.
abbrev pub SavesSucceed : List Event → Type 0
SavesSucceed [] = Unit
SavesSucceed (entered _ none ∷ es) = SavesSucceed es
SavesSucceed (entered _ (some _) ∷ es) = ⊥
SavesSucceed (_ ∷ es) = SavesSucceed es

-- The loop did not end by a panic.
abbrev pub NoPanic : Ending → Type 0
NoPanic panicked = ⊥
NoPanic _ = Unit

module _ {h : Host} where
  -- The last snapshot written is that of the session's catalog.
  abbrev pub UpToDate : Shell h → Type 0
  UpToDate s = last s.saved ≡ some (Catalog.to_snapshot s.session.catalog)

module _ {h : Host} (debug : Value h → String) (up : String → String)
    (parser : String → List Statement ⊎ String) where
  save_catalog-UpToDate : (s : Shell h) → UpToDate (save_catalog debug up parser none s)
  unfolding save_catalog
  save_catalog-UpToDate s = last-append_one s.saved (Catalog.to_snapshot s.session.catalog)

  -- What comes of an outcome, in a shell whose session it left.
  after_sql-UpToDate :
      (o : Result (ExecutionResult h)) (s : Shell h)
      → is_panic o ≡ false
      → ((e : RustafariError) → o ≡ err e → UpToDate s)
      → UpToDate (after_sql debug up parser none o s)
  after_sql-UpToDate (ok r) s go kept = save_catalog-UpToDate _
  after_sql-UpToDate (err e) s go kept = kept e refl
  after_sql-UpToDate panic s go kept = absurd (cc go)

  run_sql-UpToDate :
      (sql : String) (s : Shell h)
      → (run_sql debug up parser sql none s).0 ≡ false
      → UpToDate s
      → UpToDate (run_sql debug up parser sql none s).1
  unfolding run_sql
  run_sql-UpToDate sql s go u =
      after_sql-UpToDate (execute debug up parser sql s.session).0 _ go λ e bad.
        u
        ∙ ap (λ c. some (Catalog.to_snapshot c))
            (sym (execute-failed debug up parser sql s.session e bad).0)

  run_command-UpToDate :
      (rest : Shell h → Ending × Shell h) (text : String) (c : Command) (s : Shell h)
      → ((z : Shell h) → NoPanic (rest z).0 → UpToDate z → UpToDate (rest z).1)
      → NoPanic (run_command debug up parser rest text none c s).0
      → UpToDate s
      → UpToDate (run_command debug up parser rest text none c s).1
  unfolding run_command
  run_command-UpToDate rest text nothing s k n u = k s n u
  run_command-UpToDate rest text leave s k n u = u
  run_command-UpToDate rest text help s k n u = k _ n u
  run_command-UpToDate rest text show_databases s k n u = k _ n u
  run_command-UpToDate rest text show_tables s k n u = k _ n u
  run_command-UpToDate rest text (run sql) s k n u =
      let z : Shell h = record s { history = s.history ++ trim text ∷ [] } in
      let (stop, y) = run_sql debug up parser sql none z in
      elim stop
          as (λ b.
            (run_sql debug up parser sql none z).0 ≡ b
            → NoPanic
                (elim b as (λ _. Ending × Shell h) [ true ↦ (panicked, y) | false ↦ rest y ]).0
            → UpToDate
                (elim b as (λ _. Ending × Shell h) [ true ↦ (panicked, y) | false ↦ rest y ]).1) [
                  | true ↦ λ _ m. absurd m
                  | false ↦ λ go m. k y m (run_sql-UpToDate sql z go u)
                ]
        refl n

  -- The catalog's file is up to date when the shell ends: if the last snapshot written is that of the
  -- session's catalog when it starts, every save succeeds and no text panics, then it is so after any
  -- lines. Of the texts that end in an error, which write no snapshot, none changes the catalog.
  pub shell_loop-UpToDate :
      (es : List Event) (s : Shell h)
      → SavesSucceed es
      → NoPanic (shell_loop debug up parser es s).0
      → UpToDate s
      → UpToDate (shell_loop debug up parser es s).1
  unfolding shell_loop
  shell_loop-UpToDate [] s w n u = u
  shell_loop-UpToDate (eof ∷ es) s w n u = u
  shell_loop-UpToDate (interrupted ∷ es) s w n u = shell_loop-UpToDate es s w n u
  shell_loop-UpToDate (editor_error e ∷ es) s w n u = u
  shell_loop-UpToDate (entered text none ∷ es) s w n u =
      run_command-UpToDate (shell_loop debug up parser es) text (command_of text) s
        (λ z. shell_loop-UpToDate es z w) n u
  shell_loop-UpToDate (entered text (some e) ∷ es) s w n u = absurd w
