-- ===== src/Outcomes/Predicate.antt =====
-- packages/outcomes/src/valuemaxx/outcomes/predicate.py: the expressions of outcome rules, checked
-- against an allowlist and interpreted. Python's parser and the operations of Python's objects are
-- parameters; `getattr` and the namespace stand apart, since what may be read of them is the point.
pub mod Interpreter
pub mod Confined
use valuemaxx.Base.{
  Bool, true, false, not, ◌&&◌, ◌||◌, Option, none, some, List, [], ◌∷◌, String, if◌then◌else◌,
}
use valuemaxx.Base.Int.{ℤ}
use valuemaxx.Base.Result.{Result, ok, err, predicate_error, unknown_node, key_error, ◌>>=◌}
use valuemaxx.Base.Text.{codes, one_of, same_text, begins_with, occurs_in, before_codes}

pub data Literal : Type 0 where
  none_literal ellipsis_literal : Literal
  bool_literal : Bool → Literal
  int_literal : ℤ → Literal
  float_literal complex_literal str_literal bytes_literal : String → Literal

pub data BoolOp : Type 0 where
  and_op or_op : BoolOp

pub data UnaryOp : Type 0 where
  not_op usub_op uadd_op invert_op : UnaryOp

pub data BinOp : Type 0 where
  add_op sub_op mult_op div_op mod_op other_bin_op : BinOp

pub data CompareOp : Type 0 where
  eq_op not_eq_op lt_op lt_e_op gt_op gt_e_op in_op not_in_op other_compare_op : CompareOp

-- The nodes of a parsed expression; `other_node` is any node that is not of the allowlist.
mutual
  pub data Expr : Type 0 where
    constant : Literal → Expr
    name : String → Expr
    attribute : Expr → String → Expr
    subscript : Expr → Expr → Expr
    display : Exprs → Expr
    bool_op : BoolOp → Exprs → Expr
    unary_op : UnaryOp → Expr → Expr
    bin_op : BinOp → Expr → Expr → Expr
    compare : Expr → Comparisons → Expr
    other_node : Exprs → Expr

  pub data Exprs : Type 0 where
    no_exprs : Exprs
    expr : Expr → Exprs → Exprs

  pub data Comparisons : Type 0 where
    no_comparisons : Comparisons
    comparison : CompareOp → Expr → Comparisons → Comparisons

abbrev pub allowed_roots : List String
allowed_roots = "args" ∷ "kwargs" ∷ "result" ∷ "data" ∷ "instance" ∷ "event" ∷ []

abbrev pub const_names : List String
const_names = "True" ∷ "False" ∷ "None" ∷ []

-- `key.startswith("__")`
unfoldable pub is_dunder : String → Bool
is_dunder key = begins_with (codes "__") (codes key)

abbrev pub allowed_unary : UnaryOp → Bool
allowed_unary invert_op = false
allowed_unary not_op = true
allowed_unary usub_op = true
allowed_unary uadd_op = true

abbrev pub allowed_bin : BinOp → Bool
allowed_bin other_bin_op = false
allowed_bin add_op = true
allowed_bin sub_op = true
allowed_bin mult_op = true
allowed_bin div_op = true
allowed_bin mod_op = true

abbrev pub allowed_compare : CompareOp → Bool
allowed_compare other_compare_op = false
allowed_compare eq_op = true
allowed_compare not_eq_op = true
allowed_compare lt_op = true
allowed_compare lt_e_op = true
allowed_compare gt_op = true
allowed_compare gt_e_op = true
allowed_compare in_op = true
allowed_compare not_in_op = true

-- `_validate_tree`, whose rejections are all of one kind.
unfoldable mutual
  pub valid : Expr → Bool
  valid (constant l) = true
  valid (name x) = one_of x allowed_roots || one_of x const_names
  valid (attribute e key) = not (is_dunder key) && valid e
  valid (subscript e key) = valid e && valid key
  valid (display es) = valid_all es
  valid (bool_op op es) = valid_all es
  valid (unary_op op e) = allowed_unary op && valid e
  valid (bin_op op e f) = allowed_bin op && (valid e && valid f)
  valid (compare e cs) = valid e && valid_comparisons cs
  valid (other_node es) = false

  pub valid_all : Exprs → Bool
  valid_all no_exprs = true
  valid_all (expr e es) = valid e && valid_all es

  pub valid_comparisons : Comparisons → Bool
  valid_comparisons no_comparisons = true
  valid_comparisons (comparison op e cs) = allowed_compare op && (valid e && valid_comparisons cs)
