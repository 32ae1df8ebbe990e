-- ===== src/Shares.antt =====
-- The largest-remainder pass that allocation and proration share: both quantize each share to 10
-- places and hand the residue out, a unit at a time, in the order of the dropped remainders.
-- (packages/allocation/src/valuemaxx/allocation/_allocator.py, packages/reconciliation/src/
-- valuemaxx/reconciliation/proration.py)
pub mod Exact
pub mod Sorting
use valuemaxx.Base.{
  ℕ, zero, suc, ◌+◌, ◌%◌, Bool, true, false, List, [], ◌∷◌, map, length, get_or, modify_at, ltb,
  ◌==◌, if◌then◌else◌,
}
use valuemaxx.Base.Int.{ℤ, pos, negsuc, ltb_ℤ, magnitude}
use valuemaxx.Base.Result.{Result, ok, err, ◌>>=◌}
use valuemaxx.Decimal.{Decimal, add, sub, div, to_int, sum, lt_dec, eq_dec}
use valuemaxx.Decimal.Grid.{grid}
use valuemaxx.Decimal.Quotient.{quantum}

-- An insertion sort by a Boolean order; like Python's `sorted` it is stable.
module _ {ℓ} {A : Type ℓ} (less : A → A → Bool) where
  pub insert : A → List A → List A
  insert x [] = x ∷ []
  insert x (y ∷ ys) = if less y x then y ∷ insert x ys else x ∷ y ∷ ys

  pub sort : List A → List A
  unfolding insert
  sort [] = []
  sort (x ∷ xs) = insert x (sort xs)

-- A remainder with the position of its share.
abbrev pub Ranked : Type 0
Ranked = Decimal × ℕ

pub enumerate : ℕ → List Decimal → List Ranked
enumerate i [] = []
enumerate i (r ∷ rs) = (r, i) ∷ enumerate (i + 1) rs

-- Python's order of tuples: by remainder, then by `tie` on the positions.
pub before : (ℕ → ℕ → Bool) → Ranked → Ranked → Bool
unfolding lt_dec eq_dec
before tie (r, i) (s, j) = if eq_dec r s then tie i j else lt_dec r s

-- `sorted(..., key=..., reverse=descending)`
pub ranking : (ℕ → ℕ → Bool) → Bool → List Decimal → List Ranked
unfolding sort before enumerate
ranking tie descending rs =
    if descending
    then sort (λ a b. before tie b a) (enumerate 0 rs)
    else sort (before tie) (enumerate 0 rs)

abbrev pub position : Ranked → ℕ
position (r, i) = i

-- The last `n` rounds, from round `i` on: position `order[i % len(order)]` takes one more `d`.
pub spread : List ℕ → Decimal → ℕ → ℕ → List Decimal → List Decimal
unfolding add
spread order d zero i result = result
spread order d (suc n) i result =
    spread order d n (i + 1) (modify_at (get_or order (i % length order) 0) (λ v. add v d) result)

pub zip_sub : List Decimal → List Decimal → List Decimal
unfolding sub
zip_sub (x ∷ xs) (y ∷ ys) = sub x y ∷ zip_sub xs ys
zip_sub _ _ = []

-- `_QUANTUM if steps > 0 else -_QUANTUM`
abbrev pub direction : ℤ → Decimal
direction (pos n) = quantum
direction (negsuc n) = record { coef = negsuc 0; exp = grid }

abbrev pub descends : ℤ → Bool
descends steps = ltb_ℤ (pos 0) steps

pub hand_out : (ℕ → ℕ → Bool) → ℤ → List Decimal → List Decimal → List Decimal
unfolding ranking spread zip_sub
hand_out tie steps exact rounded =
    if magnitude steps == 0
    then rounded
    else spread (map position (ranking tie (descends steps) (zip_sub exact rounded)))
        (direction steps) (magnitude steps) 0 rounded

-- The number of units still to hand out.
pub residue_steps : Decimal → List Decimal → Result ℤ
unfolding sub sum div to_int
residue_steps total rounded = do q ← div (sub total (sum rounded)) quantum; ok (to_int q)

unfoldable pub settle :
    (ℕ → ℕ → Bool) → Decimal → List Decimal → List Decimal → Result (List Decimal)
unfolding hand_out residue_steps
settle tie total exact rounded = do
  steps ← residue_steps total rounded
  ok (hand_out tie steps exact rounded)
