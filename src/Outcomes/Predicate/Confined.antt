-- ===== src/Outcomes/Predicate/Confined.antt =====
-- An expression reads nothing but the allowed roots and attributes that are no dunders.
use valuemaxx.Base.{
  ◌≡◌, refl, ap, ◌∙◌, Bool, true, false, not, ◌&&◌, ◌||◌, inl, inr, Option, none, some, String,
  arith, Bool-cases, if◌then◌else◌,
}
use valuemaxx.Base.Result.{Result, ok, err, ◌>>=◌}
use valuemaxx.Base.Text.{one_of, same_text}
use valuemaxx.Outcomes.Predicate.{
  Expr, constant, name, attribute, subscript, display, bool_op, unary_op, bin_op, compare,
  other_node, Exprs, no_exprs, expr, Comparisons, no_comparisons, comparison, BinOp, add_op, sub_op,
  mult_op, div_op, mod_op, other_bin_op, allowed_roots, const_names, allowed_unary, allowed_bin,
  allowed_compare, is_dunder, valid, valid_all, valid_comparisons,
}
use valuemaxx.Outcomes.Predicate.Interpreter.{
  Objects, compare_one, read, read_item, read_name, eval, eval_all, eval_compare, checked, extract,
  test,
}

bind_same {ℓ κ} :
    {A : Type ℓ} {B : Type κ} (m : Result A) {f f' : A → Result B}
    → ((x : A) → f x ≡ f' x)
    → (m >>= f) ≡ (m >>= f')
bind_same (err e) h = refl
bind_same (ok x) h = h x

bind_cong {ℓ κ} :
    {A : Type ℓ} {B : Type κ} {m m' : Result A} {f f' : A → Result B}
    → m ≡ m'
    → ((x : A) → f x ≡ f' x)
    → (m >>= f) ≡ (m' >>= f')
bind_cong {m' = m'} {f = f} h k = ap (λ n. n >>= f) h ∙ bind_same m' k

both_true : (a b : Bool) → (a && b) ≡ true → (a ≡ true) × (b ≡ true)
both_true a b h = ground arith

left_of : (a b : Bool) → (a || b) ≡ true → b ≡ false → a ≡ true
left_of a b h k = ground arith

no_constant :
    (x : String)
    → same_text x "True" ≡ false
    → same_text x "False" ≡ false
    → same_text x "None" ≡ false
    → one_of x const_names ≡ false
unfolding one_of
no_constant x t f n = rw (t, f, n) refl

module _ {D N : Type 0} (o : Objects D N) (g g' : D → String → Result D) (ns ns' : String → D)
    (same_attributes : (d : D) (key : String) → is_dunder key ≡ false → g d key ≡ g' d key)
    (same_roots : (x : String) → one_of x allowed_roots ≡ true → ns x ≡ ns' x) where
  read_same : (d : D) (key : String) → read o g ns d key ≡ read o g' ns' d key
  unfolding read
  read_same d key = elim (Bool-cases (is_dunder key)) [
    | inl h ↦ rw h refl
    | inr h ↦ rw (h, same_attributes d key h) refl
  ]

  read_item_same : (d key : D) → read_item o g ns d key ≡ read_item o g' ns' d key
  unfolding read_item
  read_item_same d key =
      ap (λ r. if o.is_mapping d then o.mapping_get d key else r)
        (bind_same (o.to_text key) (λ s. read_same d s))

  read_name_same :
      (x : String)
      → (one_of x allowed_roots || one_of x const_names) ≡ true
      → read_name o g ns x ≡ read_name o g' ns' x
  unfolding read_name
  read_name_same x h = elim (Bool-cases (same_text x "True")) [
    | inl t ↦ rw t refl
    | inr t ↦ rw t (elim (Bool-cases (same_text x "False")) [
      | inl f ↦ rw f refl
      | inr f ↦ rw f (elim (Bool-cases (same_text x "None")) [
        | inl n ↦ rw n refl
        | inr n ↦ rw n (
            same_roots x
              (left_of (one_of x allowed_roots) (one_of x const_names) h (no_constant x t f n)))
      ])
    ])
  ]

  bin_same :
      (op : BinOp) (e f : Expr)
      → eval o g ns e ≡ eval o g' ns' e
      → eval o g ns f ≡ eval o g' ns' f
      → eval o g ns (bin_op op e f) ≡ eval o g' ns' (bin_op op e f)
  unfolding eval
  bin_same other_bin_op e f h k = refl
  bin_same add_op e f h k = bind_cong h (λ l. bind_cong k (λ r. refl))
  bin_same sub_op e f h k = bind_cong h (λ l. bind_cong k (λ r. refl))
  bin_same mult_op e f h k = bind_cong h (λ l. bind_cong k (λ r. refl))
  bin_same div_op e f h k = bind_cong h (λ l. bind_cong k (λ r. refl))
  bin_same mod_op e f h k = bind_cong h (λ l. bind_cong k (λ r. refl))

  mutual
    unfolding eval valid

    eval_same : (e : Expr) → valid e ≡ true → eval o g ns e ≡ eval o g' ns' e
    eval_same (constant l) h = refl
    eval_same (name x) h = ap ok (read_name_same x h)
    eval_same (attribute e key) h =
        bind_cong (eval_same e (both_true (not (is_dunder key)) (valid e) h).1)
          (λ d. read_same d key)
    eval_same (subscript e k) h =
        let both = both_true (valid e) (valid k) h in
        bind_cong (eval_same e both.0)
          (λ d. bind_cong (eval_same k both.1) (λ key. read_item_same d key))
    eval_same (display es) h = bind_cong (eval_all_same es h) (λ ds. refl)
    eval_same (bool_op op es) h = bind_cong (eval_all_same es h) (λ ds. refl)
    eval_same (unary_op op e) h =
        bind_cong (eval_same e (both_true (allowed_unary op) (valid e) h).1) (λ d. refl)
    eval_same (bin_op op e f) h =
        let both = both_true (allowed_bin op) (valid e && valid f) h in
        let parts = both_true (valid e) (valid f) both.1 in
        bin_same op e f (eval_same e parts.0) (eval_same f parts.1)
    eval_same (compare e cs) h =
        let both = both_true (valid e) (valid_comparisons cs) h in
        bind_cong (eval_same e both.0)
          (λ left. bind_cong (eval_compare_same left cs both.1) (λ b. refl))
    eval_same (other_node es) h = refl

    eval_all_same : (es : Exprs) → valid_all es ≡ true → eval_all o g ns es ≡ eval_all o g' ns' es
    eval_all_same no_exprs h = refl
    eval_all_same (expr e es) h =
        let both = both_true (valid e) (valid_all es) h in
        bind_cong (eval_same e both.0) (λ d. bind_cong (eval_all_same es both.1) (λ ds. refl))

    eval_compare_same :
        (left : D) (cs : Comparisons)
        → valid_comparisons cs ≡ true
        → eval_compare o g ns left cs ≡ eval_compare o g' ns' left cs
    eval_compare_same left no_comparisons h = refl
    eval_compare_same left (comparison op e cs) h =
        let both = both_true (allowed_compare op) (valid e && valid_comparisons cs) h in
        let parts = both_true (valid e) (valid_comparisons cs) both.1 in
        bind_cong (eval_same e parts.0) (λ right.
          bind_same (compare_one o op left right)
            (λ b. ap (λ rest. if b then rest else ok false) (eval_compare_same right cs parts.1)))

  checked_same :
      (parsed : Option Expr)
      → (checked parsed >>= λ e. eval o g ns e) ≡ (checked parsed >>= λ e. eval o g' ns' e)
  checked_same none = refl
  checked_same (some e) = elim (Bool-cases (valid e)) [
    | inl h ↦ rw h (eval_same e h)
    | inr h ↦ rw h refl
  ]

  -- Whatever the text of a predicate, and whatever the objects: where two namespaces agree on the
  -- allowed roots, and two ways to read attributes agree on the keys that do not begin with two
  -- underscores, the predicate and the extractor of the text give the same value or the same kind of
  -- error. So no text reads another name of its surroundings, or a dunder attribute.
  pub test_confined :
      (parsed : Option Expr)
      → (extract o g parsed ns ≡ extract o g' parsed ns')
        × (test o g parsed ns ≡ test o g' parsed ns')
  unfolding extract test
  test_confined parsed = (checked_same parsed, ap (λ r. r >>= o.to_bool) (checked_same parsed))
