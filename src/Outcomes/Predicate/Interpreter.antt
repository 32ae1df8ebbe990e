-- ===== src/Outcomes/Predicate/Interpreter.antt =====
-- `_eval_node` of predicate.py and its helpers, and the two functions that compile a text.
use valuemaxx.Base.{
  Bool, true, false, not, Option, none, some, List, [], ◌∷◌, String, if◌then◌else◌,
}
use valuemaxx.Base.Result.{Result, ok, err, predicate_error, unknown_node, key_error, ◌>>=◌}
use valuemaxx.Base.Text.{codes, same_text, occurs_in, before_codes}
use valuemaxx.Outcomes.Predicate.{
  Literal, none_literal, bool_literal, BoolOp, and_op, or_op, UnaryOp, not_op, usub_op, uadd_op,
  invert_op, BinOp, other_bin_op, CompareOp, eq_op, not_eq_op, lt_op, lt_e_op, gt_op, gt_e_op,
  in_op, not_in_op, other_compare_op, Expr, constant, name, attribute, subscript, display, bool_op,
  unary_op, bin_op, compare, other_node, Exprs, no_exprs, expr, Comparisons, no_comparisons,
  comparison, is_dunder, valid,
}

-- The operations of Python's objects `D` and numbers `N` that the interpreter calls.
pub record Objects (D N : Type 0) : Type 0 where
  pub of_literal : Literal → D
  pub of_list : List D → D
  pub of_text : String → D
  pub to_bool : D → Result Bool
  pub to_text : D → Result String
  pub is_mapping : D → Bool
  pub mapping_get : D → D → Result D
  pub as_number : D → Option N
  pub as_text : D → Option String
  pub members : D → Option (List D)
  pub is_member : D → List D → Result Bool
  pub equal : D → D → Result D
  pub unequal : D → D → Result D
  pub greater : N → N → Bool
  pub arith : BinOp → N → N → Result D
  pub negative : N → Result D
  pub positive : N → Result D

-- The result of `_order`: below, at or above zero.
pub data Order : Type 0 where
  below same above : Order

-- `(left > right) - (left < right)`
abbrev pub order_of : Bool → Bool → Order
order_of true true = same
order_of true false = above
order_of false true = below
order_of false false = same

abbrev pub holds : CompareOp → Order → Bool
holds lt_op below = true
holds lt_e_op below = true
holds lt_e_op same = true
holds gt_op above = true
holds gt_e_op above = true
holds gt_e_op same = true
holds _ _ = false

-- `_parse`, on what Python's parser gives for the text, if it parses it.
abbrev pub checked : Option Expr → Result Expr
checked none = err predicate_error
checked (some e) = if valid e then ok e else err predicate_error

module _ {D N : Type 0} (o : Objects D N) where
  abbrev pub of_bool : Bool → D
  of_bool b = o.of_literal (bool_literal b)

  abbrev pub order_numbers : Option N → Option N → Result Order → Result Order
  order_numbers (some n) (some m) otherwise = ok (order_of (o.greater n m) (o.greater m n))
  order_numbers none m otherwise = otherwise
  order_numbers (some n) none otherwise = otherwise

  abbrev pub order_texts : Option String → Option String → Result Order
  order_texts (some s) (some t) =
      ok (order_of (before_codes (codes t) (codes s)) (before_codes (codes s) (codes t)))
  order_texts none t = err predicate_error
  order_texts (some s) none = err predicate_error

  unfoldable pub order : D → D → Result Order
  order left right =
      order_numbers (o.as_number left) (o.as_number right)
        (order_texts (o.as_text left) (o.as_text right))

  abbrev pub arith_numbers : BinOp → Option N → Option N → Result D
  arith_numbers op (some n) (some m) = o.arith op n m
  arith_numbers op none m = err predicate_error
  arith_numbers op (some n) none = err predicate_error

  abbrev pub contains_text : String → Option String → Result Bool
  contains_text container none = ok false
  contains_text container (some item) = ok (occurs_in (codes item) (codes container))

  abbrev pub contains_member : Option (List D) → D → Result Bool
  contains_member none item = ok false
  contains_member (some ms) item = o.is_member item ms

  abbrev pub contains_in : Option String → D → D → Result Bool
  contains_in (some s) container item = contains_text s (o.as_text item)
  contains_in none container item = contains_member (o.members container) item

  unfoldable pub contains : D → D → Result Bool
  contains container item = contains_in (o.as_text container) container item

  -- One comparison of a chain.
  unfoldable pub compare_one : CompareOp → D → D → Result Bool
  compare_one eq_op left right = do r ← o.equal left right; o.to_bool r
  compare_one not_eq_op left right = do r ← o.unequal left right; o.to_bool r
  compare_one lt_op left right = do r ← order left right; ok (holds lt_op r)
  compare_one lt_e_op left right = do r ← order left right; ok (holds lt_e_op r)
  compare_one gt_op left right = do r ← order left right; ok (holds gt_op r)
  compare_one gt_e_op left right = do r ← order left right; ok (holds gt_e_op r)
  compare_one in_op left right = contains right left
  compare_one not_in_op left right = do r ← contains right left; ok (not r)
  compare_one other_compare_op left right = err key_error

  -- `all(values)` and `any(values)`
  unfoldable pub all_true : List D → Result Bool
  all_true [] = ok true
  all_true (d ∷ ds) = do b ← o.to_bool d; let rest = all_true ds; if b then rest else ok false

  unfoldable pub any_true : List D → Result Bool
  any_true [] = ok false
  any_true (d ∷ ds) = do b ← o.to_bool d; let rest = any_true ds; if b then ok true else rest

  abbrev pub bool_values : BoolOp → List D → Result D
  bool_values and_op ds = do b ← all_true ds; ok (of_bool b)
  bool_values or_op ds = do b ← any_true ds; ok (of_bool b)

  abbrev pub unary_number : UnaryOp → Option N → Result D
  unary_number op none = err predicate_error
  unary_number usub_op (some n) = o.negative n
  unary_number _ (some n) = o.positive n

  abbrev pub unary_value : UnaryOp → D → Result D
  unary_value not_op d = do b ← o.to_bool d; ok (of_bool (not b))
  unary_value usub_op d = unary_number usub_op (o.as_number d)
  unary_value uadd_op d = unary_number uadd_op (o.as_number d)
  unary_value invert_op d = unary_number invert_op (o.as_number d)

  module _ (getattr : D → String → Result D) (ns : String → D) where
    unfoldable pub read : D → String → Result D
    read container key =
        if is_dunder key
        then err predicate_error
        else if o.is_mapping container
        then o.mapping_get container (o.of_text key)
        else getattr container key

    unfoldable pub read_item : D → D → Result D
    read_item target key =
        if o.is_mapping target
        then o.mapping_get target key
        else do s ← o.to_text key; read target s

    unfoldable pub read_name : String → D
    read_name x =
        if same_text x "True"
        then of_bool true
        else if same_text x "False"
        then of_bool false
        else if same_text x "None"
        then o.of_literal none_literal
        else ns x

    unfoldable mutual
      pub eval : Expr → Result D
      eval (constant l) = ok (o.of_literal l)
      eval (name x) = ok (read_name x)
      eval (attribute e key) = do d ← eval e; read d key
      eval (subscript e k) = do target ← eval e; key ← eval k; read_item target key
      eval (display es) = do ds ← eval_all es; ok (o.of_list ds)
      eval (bool_op op es) = do ds ← eval_all es; bool_values op ds
      eval (unary_op op e) = do d ← eval e; unary_value op d
      eval (bin_op other_bin_op e f) = err key_error
      eval (bin_op op e f) = do
        left ← eval e
        right ← eval f
        arith_numbers op (o.as_number left) (o.as_number right)
      eval (compare e cs) = do left ← eval e; b ← eval_compare left cs; ok (of_bool b)
      eval (other_node es) = err unknown_node

      pub eval_all : Exprs → Result (List D)
      eval_all no_exprs = ok []
      eval_all (expr e es) = do d ← eval e; ds ← eval_all es; ok (d ∷ ds)

      pub eval_compare : D → Comparisons → Result Bool
      eval_compare left no_comparisons = ok true
      eval_compare left (comparison op e cs) = do
        right ← eval e
        b ← compare_one op left right
        let rest = eval_compare right cs
        if b then rest else ok false

  module _ (getattr : D → String → Result D) where
    -- `compile_expr`, applied to a namespace.
    unfoldable pub extract : Option Expr → (String → D) → Result D
    extract parsed ns = do e ← checked parsed; eval getattr ns e

    -- `compile_predicate`, applied to a namespace.
    unfoldable pub test : Option Expr → (String → D) → Result Bool
    test parsed ns = do d ← extract parsed ns; o.to_bool d
