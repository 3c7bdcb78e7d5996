-- ===== src/Sql/Ast.antt =====
-- The part of the syntax trees of the sqlparser crate that crates/rustafari-sql/src/plan.rs reads. An
-- enum has the variants that the code names, and one for all others; a struct has the fields that the
-- code reads. An identifier comes with what the crate prints of it, quotes included.
use rustafari_db.Common.{String, Bool, List, Option}

pub record Ident : Type 0 where
  pub value : String
  pub printed : String

pub record ObjectName : Type 0 where
  pub idents : List Ident

pub data Literal : Type 0 where
  number single_quoted unquoted : String → Literal
  boolean : Bool → Literal
  null_literal other_literal : Literal

pub data BinaryOperator : Type 0 where
  and_op or_op eq_op not_eq_op gt_op lt_op gt_eq_op lt_eq_op other_op : BinaryOperator

-- `Args` is `Vec<FunctionArg>`; a call has its name and its arguments.
mutual
  pub data Expr : Type 0 where
    identifier : Ident → Expr
    value : Literal → Expr
    binary : Expr → BinaryOperator → Expr → Expr
    nested : Expr → Expr
    function : Call → Expr
    other_expr : Expr

  pub data Call : Type 0 where
    call : ObjectName → Args → Call

  pub data Args : Type 0 where
    no_arg : Args
    arg : FunctionArg → Args → Args

  pub data FunctionArg : Type 0 where
    unnamed_expr : Expr → FunctionArg
    unnamed_wildcard other_arg : FunctionArg

pub data SelectItem : Type 0 where
  unnamed : Expr → SelectItem
  other_item : SelectItem

pub data TableFactor : Type 0 where
  table_factor : ObjectName → TableFactor
  other_factor : TableFactor

pub data GroupByExpr : Type 0 where
  expressions : List Expr → GroupByExpr
  all : GroupByExpr

pub record Select : Type 0 where
  pub projection : List SelectItem
  pub from : List TableFactor
  pub selection : Option Expr
  pub group_by : GroupByExpr

pub data SetExpr : Type 0 where
  select : Select → SetExpr
  values : List (List Expr) → SetExpr
  other_set : SetExpr

pub record OrderByExpr : Type 0 where
  pub expr : Expr
  pub asc : Option Bool

pub record Query : Type 0 where
  pub body : SetExpr
  pub order_by : List OrderByExpr
  pub limit : Option Expr
  pub offset : Option Expr

pub data DataType : Type 0 where
  big_int double_precision boolean_type varchar text timestamp date blob other_type : DataType

pub record ColumnDef : Type 0 where
  pub name : Ident
  pub data_type : DataType

pub data ObjectType : Type 0 where
  table_object other_object : ObjectType

pub data Statement : Type 0 where
  query : Query → Statement
  insert : ObjectName → List Ident → Option Query → Statement
  create_table : ObjectName → List ColumnDef → Statement
  drop : ObjectType → List ObjectName → Statement
  explain_table : ObjectName → Statement
  other_statement : Statement
