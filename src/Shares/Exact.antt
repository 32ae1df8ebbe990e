-- ===== src/Shares/Exact.antt =====
-- The parts that `settle` hands back sum to the total exactly, whatever the remainders are.
use native.Mathlib.Nat.{mod-lt}
use valuemaxx.Base.{
  ℕ, zero, suc, ◌+◌, ◌%◌, ◌≤◌, ◌<◌, ◌≡◌, refl, ap, ◌∙◌, Bool, List, [], ◌∷◌, map, length, All,
  get_or, modify_at, length-modify_at, All-get_or, arith, Bool-cases, inl, inr, ◌==◌, ==_iff,
}
use valuemaxx.Base.Int.{
  ℤ, pos, negsuc, ◌+ℤ◌, ◌-ℤ◌, magnitude, scale, int_laws, scale_parts, magnitude-+ℤ-le,
  magnitude--ℤ-le,
}
use valuemaxx.Base.Result.{ok}
use valuemaxx.Decimal.{Decimal, coef_limit, coef_at, add, sub, sum}
use valuemaxx.Decimal.Grid.{
  OnGrid, units, total_units, abs_units, add-units, sub-units, sum-units, total_units-le, coef-lt,
}
use valuemaxx.Decimal.Quotient.{div-quantum, to_int-units}
use valuemaxx.Shares.{
  spread, zip_sub, direction, descends, hand_out, residue_steps, settle, ranking, position,
}
use valuemaxx.Shares.Sorting.{length-ranking, ranking_in_range}

-- One more `d` on the part at position `i`.
module _ (d : Decimal) (d_grid : OnGrid d) (d_unit : magnitude (units d) ≤ 1) where
  module _ (r : Decimal) (r_grid : OnGrid r) (fits : magnitude (units r) + 1 < coef_limit) where
    bump : OnGrid (add r d) × (units (add r d) ≡ units r +ℤ units d)
    bump = add-units r d r_grid d_grid (omega (arith, magnitude-+ℤ-le (units r) (units d)))

  -- What `modify_at` with `add` does to the sums.
  pub record Bumped (rs qs : List Decimal) : Type 0 where
    pub on_grid : All OnGrid qs
    pub totals : total_units qs ≡ total_units rs +ℤ units d
    pub bounded : abs_units qs ≤ abs_units rs + 1

  modify_at-Bumped :
      (i : ℕ) (rs : List Decimal)
      → All OnGrid rs
      → i < length rs
      → abs_units rs + 1 < coef_limit
      → Bumped rs (modify_at i (λ v. add v d) rs)
  unfolding total_units abs_units
  modify_at-Bumped i [] h lt fits = absurd (omega arith)
  modify_at-Bumped zero (r ∷ rs) h lt fits =
      let b = bump r h.0 (omega arith) in
      record {
        on_grid = (b.0, h.1);
        totals = rw b.1 (omega int_laws);
        bounded = rw b.1 (omega (arith, magnitude-+ℤ-le (units r) (units d)));
      }
  modify_at-Bumped (suc i) (r ∷ rs) h lt fits =
      let b = modify_at-Bumped i rs h.1 (omega arith) (omega arith) in
      record {
        on_grid = (h.0, b.on_grid);
        totals = rw b.totals (omega int_laws);
        bounded = omega (arith, b.bounded);
      }

  module _ (order : List ℕ) (size : ℕ) (valid : All (λ i. i < size) order)
      (some_order : 0 < length order) where
    pub record Spread (n : ℕ) (rs qs : List Decimal) : Type 0 where
      pub on_grid : All OnGrid qs
      pub totals : total_units qs ≡ total_units rs +ℤ scale n (units d)
      pub same_length : length qs ≡ length rs

    pub spread-Spread :
        (n i : ℕ) (rs : List Decimal)
        → All OnGrid rs
        → length rs ≡ size
        → abs_units rs + n < coef_limit
        → Spread n rs (spread order d n i rs)
    unfolding spread
    spread-Spread zero i rs h len fits = record {
      on_grid = h;
      totals = omega (int_laws, scale_parts 0 (units d));
      same_length = refl;
    }
    spread-Spread (suc n) i rs h len fits =
        let at = get_or order (i % length order) 0 in
        let b =
          modify_at-Bumped at rs h
            (rw len
              (All-get_or (λ j. j < size) order (i % length order) 0 valid (mod-lt i some_order)))
            (omega arith) in
        let rest =
          spread-Spread n (i + 1) (modify_at at (λ v. add v d) rs) b.on_grid
            (length-modify_at at (λ v. add v d) rs ∙ len) (omega (arith, b.bounded)) in
        record {
          on_grid = rest.on_grid;
          totals =
              rest.totals
              ∙ rw b.totals
                  (omega (int_laws, scale_parts n (units d), scale_parts (suc n) (units d)));
          same_length = rest.same_length ∙ length-modify_at at (λ v. add v d) rs;
        }

units-direction :
    (z : ℤ) → (units (direction (pos 0)) ≡ pos 1) × (units (direction (negsuc 0)) ≡ negsuc 0)
unfolding coef_at
units-direction z = (refl, refl)

direction-units : (z : ℤ) → OnGrid (direction z) × (magnitude (units (direction z)) ≤ 1)
unfolding coef_at
direction-units (pos n) = (omega arith, omega arith)
direction-units (negsuc n) = (omega arith, omega arith)

direction_steps : (z : ℤ) → scale (magnitude z) (units (direction z)) ≡ z
unfolding coef_at scale
direction_steps (pos n) = ground arith
direction_steps (negsuc n) = ground arith

length-zip_sub : (xs ys : List Decimal) → length xs ≡ length ys → length (zip_sub xs ys) ≡ length ys
unfolding zip_sub
length-zip_sub [] ys h = h
length-zip_sub (x ∷ xs) [] h = absurd (omega arith)
length-zip_sub (x ∷ xs) (y ∷ ys) h = ap suc (length-zip_sub xs ys (omega arith))

module _ (tie : ℕ → ℕ → Bool) (exact rounded : List Decimal) (total : Decimal) where
  -- The rounded shares are on the grid, one for each exact share, and far below the 28 digits.
  pub record Settles : Type 0 where
    pub total_on_grid : OnGrid total
    pub shares_on_grid : All OnGrid rounded
    pub aligned : length exact ≡ length rounded
    pub some_share : 0 < length rounded
    pub fits : abs_units rounded + (abs_units rounded + magnitude (units total)) < coef_limit

  module _ (s : Settles) where
    open s use {total_on_grid, shares_on_grid, aligned, some_share, fits}

    -- the units that rounding left over
    abbrev residue : ℤ
    residue = units total -ℤ total_units rounded

    residue-le : magnitude residue ≤ abs_units rounded + magnitude (units total)
    residue-le =
        omega (arith, magnitude--ℤ-le (units total) (total_units rounded), total_units-le rounded)

    residue_steps-eq : residue_steps total rounded ≡ ok residue
    unfolding residue_steps
    residue_steps-eq =
        let a = sum-units rounded shares_on_grid (omega arith) in
        let left : magnitude (units total -ℤ units (sum rounded)) < coef_limit =
          rw a.1 (omega (arith, residue-le)) in
        let b = sub-units total (sum rounded) total_on_grid a.0 left in
        let small = coef-lt (sub total (sum rounded)) b.0 (rw b.1 left) in
        rw (div-quantum (sub total (sum rounded)) b.0 small) (
          ap ok (
            to_int-units (sub total (sum rounded)) b.0 small
            ∙ b.1
            ∙ ap (λ z. units total -ℤ z) a.1))

    abbrev order : List ℕ
    order = map position (ranking tie (descends residue) (zip_sub exact rounded))

    order_length : length order ≡ length rounded
    order_length =
        length-ranking tie (descends residue) (zip_sub exact rounded)
        ∙ length-zip_sub exact rounded aligned

    in_range : All (λ i. i < length rounded) order
    in_range =
        rw (← length-zip_sub exact rounded aligned)
          (ranking_in_range tie (descends residue) (zip_sub exact rounded))

    -- What the parts satisfy.
    pub record Exact (parts : List Decimal) : Type 0 where
      pub parts_on_grid : All OnGrid parts
      pub exact_sum : total_units parts ≡ units total
      pub one_each : length parts ≡ length rounded

    handed :
        Spread
          (direction residue)
          (direction-units residue).0
          (direction-units residue).1
          order
          (length rounded)
          in_range
          (rw order_length some_share)
          (magnitude residue)
          rounded
          (spread order (direction residue) (magnitude residue) 0 rounded)
    handed =
        spread-Spread (direction residue) (direction-units residue).0 (direction-units residue).1
          order (length rounded) in_range (rw order_length some_share) (magnitude residue) 0 rounded
          shares_on_grid refl (omega (arith, residue-le))

    hand_out-Exact : Exact (hand_out tie residue exact rounded)
    unfolding hand_out
    hand_out-Exact = elim (Bool-cases (magnitude residue == 0)) [
      | inl z ↦ rw z (record {
        parts_on_grid = shares_on_grid;
        exact_sum = let e : magnitude residue ≡ 0 = (==_iff _ _).0 z in omega (int_laws, e);
        one_each = refl;
      })
      | inr nz ↦ rw nz (record {
        parts_on_grid = handed.on_grid;
        exact_sum =
            handed.totals
            ∙ ap (λ z. total_units rounded +ℤ z) (direction_steps residue)
            ∙ omega int_laws;
        one_each = handed.same_length;
      })
    ]

    pub settle-Exact :
        (parts : List Decimal) × (settle tie total exact rounded ≡ ok parts) × Exact parts
    unfolding settle
    settle-Exact = (hand_out tie residue exact rounded, rw residue_steps-eq refl, hand_out-Exact)
