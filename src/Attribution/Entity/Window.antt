-- ===== src/Attribution/Entity/Window.antt =====
-- The candidates of the entity tier: near runs of the repository, each once, the closest first.
use text.Mathlib.Text.{◌==◌}
use text.Mathlib.TextEquality.{eq_iff}
use mathlib.Core.List.{Permᴰ}
use mathlib.Core.List.Permᴰ
use valuemaxx.Base.{
  ◌≡◌, refl, ◌∙◌, Bool, true, false, not, ◌&&◌, ◌||◌, List, [], ◌∷◌, ◌++◌, All, All-append, map,
  Bool-cases, inl, inr, String, arith,
}
use valuemaxx.Base.Int.{ℤ}
use valuemaxx.Base.Result.{Result, ok, err, division_by_zero, traverse}
use valuemaxx.Core.Alias.{EntityKey}
use valuemaxx.Attribution.Resolver.{FloatOps, Run, RunRepository, ResolveContext}
use valuemaxx.Attribution.Entity.{
  seen_run, keep_new, collect_runs, within_window, matching_runs, Scored, is_zero, window_seconds,
  placed, score_run, insert_scored, closest_first,
}

-- No two runs of the list have the same id.
abbrev pub IsDistinct : List Run → Type 0
IsDistinct [] = Unit
IsDistinct (r ∷ rs) = (seen_run r.id rs ≡ false) × IsDistinct rs

seen_run-append :
    (id : String) (xs ys : List Run) → seen_run id (xs ++ ys) ≡ (seen_run id xs || seen_run id ys)
unfolding seen_run
seen_run-append id [] ys = refl
seen_run-append id (x ∷ xs) ys =
    rw (seen_run-append id xs ys) (or_assoc (id == x.id) (seen_run id xs) (seen_run id ys))
  where
    or_assoc : (a b c : Bool) → (a || (b || c)) ≡ ((a || b) || c)
    or_assoc true b c = refl
    or_assoc false b c = refl

eq_sym_false : (a b : String) → (a == b) ≡ false → (b == a) ≡ false
eq_sym_false a b h = ground (arith, eq_iff a b, eq_iff b a)

or_parts : (a b : Bool) → (a || b) ≡ false → (a ≡ false) × (b ≡ false)
or_parts true b h = cc h
or_parts false b h = (refl, h)

and_parts : (a b : Bool) → (a && not b) ≡ true → (a ≡ true) × (b ≡ false)
and_parts true true h = cc h
and_parts true false h = (refl, refl)
and_parts false b h = cc h

-- A run of a new id can follow.
IsDistinct-append :
    (xs : List Run) (r : Run) → IsDistinct xs → seen_run r.id xs ≡ false → IsDistinct (xs ++ r ∷ [])
unfolding seen_run
IsDistinct-append [] r distinct new = (refl, tt)
IsDistinct-append (x ∷ xs) r distinct new =
    let parts = or_parts (r.id == x.id) (seen_run r.id xs) new in
    (
      seen_run-append x.id xs (r ∷ []) ∙ rw distinct.0 (rw (eq_sym_false r.id x.id parts.0) refl),
      IsDistinct-append xs r distinct.1 parts.1,
    )

module _ (near : Run → Bool) where
  abbrev pub AllNear : List Run → Type 0
  AllNear = All (λ r. near r ≡ true)

  keep_new-IsDistinct :
      (rs seen : List Run)
      → IsDistinct seen
      → AllNear seen
      → IsDistinct (keep_new near rs seen) × AllNear (keep_new near rs seen)
  unfolding keep_new
  keep_new-IsDistinct [] seen distinct all_near = (distinct, all_near)
  keep_new-IsDistinct (r ∷ rs) seen distinct all_near =
      elim (Bool-cases (near r && not (seen_run r.id seen))) [
        | inl e ↦
            let parts = and_parts (near r) (seen_run r.id seen) e in
            rw (e, keep_new)
              (keep_new-IsDistinct rs (seen ++ r ∷ []) (IsDistinct-append seen r distinct parts.1)
                (All-append (λ x. near x ≡ true) seen (r ∷ []) all_near (parts.0, tt)))
        | inr e ↦ rw (e, keep_new) (keep_new-IsDistinct rs seen distinct all_near)
      ]

  collect_runs-IsDistinct :
      (repo : RunRepository) (tenant : String) (keys : List EntityKey) (seen : List Run)
      → IsDistinct seen
      → AllNear seen
      → IsDistinct (collect_runs near repo tenant keys seen)
        × AllNear (collect_runs near repo tenant keys seen)
  unfolding collect_runs
  collect_runs-IsDistinct repo tenant [] seen distinct all_near = (distinct, all_near)
  collect_runs-IsDistinct repo tenant (key ∷ keys) seen distinct all_near =
      let kept = keep_new-IsDistinct (repo.list_by_entity tenant key) seen distinct all_near in
      collect_runs-IsDistinct repo tenant keys (keep_new near (repo.list_by_entity tenant key) seen)
        kept.0 kept.1

module _ {S : Type 0} (floats : FloatOps S) where
  -- No scored run is strictly closer than the one before it.
  abbrev pub IsSorted : List (Scored floats) → Type 0
  IsSorted [] = Unit
  IsSorted (x ∷ []) = Unit
  IsSorted (x ∷ (y ∷ ys)) = (floats.lt y.1 x.1 ≡ false) × IsSorted (y ∷ ys)

  abbrev CanLead : Scored floats → List (Scored floats) → Type 0
  CanLead x [] = Unit
  CanLead x (y ∷ ys) = floats.lt y.1 x.1 ≡ false

  IsSorted-parts :
      (x : Scored floats) (ys : List (Scored floats))
      → IsSorted (x ∷ ys)
      → CanLead x ys × IsSorted ys
  IsSorted-parts x [] h = (tt, tt)
  IsSorted-parts x (y ∷ ys) h = h

  prepend-IsSorted :
      (x : Scored floats) (ys : List (Scored floats))
      → CanLead x ys
      → IsSorted ys
      → IsSorted (x ∷ ys)
  prepend-IsSorted x [] lead h = tt
  prepend-IsSorted x (y ∷ ys) lead h = (lead, h)

  insert_scored-CanLead :
      (y x : Scored floats) (zs : List (Scored floats))
      → CanLead y zs
      → floats.lt x.1 y.1 ≡ false
      → CanLead y (insert_scored floats x zs)
  unfolding insert_scored
  insert_scored-CanLead y (r, d, s) [] lead h = h
  insert_scored-CanLead y (r, d, s) ((r', d', s') ∷ zs) lead h =
      elim (Bool-cases (floats.lt d' d)) [ inl e ↦ rw e lead | inr e ↦ rw e h ]

  insert_scored-IsSorted :
      ((a b : S) → floats.lt a b ≡ true → floats.lt b a ≡ false)
      → (x : Scored floats) (ys : List (Scored floats)) → IsSorted ys
      → IsSorted (insert_scored floats x ys)
  unfolding insert_scored
  insert_scored-IsSorted asym (r, d, s) [] h = tt
  insert_scored-IsSorted asym (r, d, s) ((r', d', s') ∷ ys) h =
      let parts = IsSorted-parts (r', d', s') ys h in
      elim (Bool-cases (floats.lt d' d)) [
        | inl e ↦ rw e (
            prepend-IsSorted (r', d', s') (insert_scored floats (r, d, s) ys)
              (insert_scored-CanLead (r', d', s') (r, d, s) ys parts.0 (asym d' d e))
              (insert_scored-IsSorted asym (r, d, s) ys parts.1))
        | inr e ↦ rw e (e, h)
      ]

  closest_first-IsSorted :
      ((a b : S) → floats.lt a b ≡ true → floats.lt b a ≡ false)
      → (xs : List (Scored floats)) → IsSorted (closest_first floats xs)
  unfolding closest_first
  closest_first-IsSorted asym [] = tt
  closest_first-IsSorted asym (x ∷ xs) =
      insert_scored-IsSorted asym x (closest_first floats xs) (closest_first-IsSorted asym xs)

  insert_scored-Perm :
      (x : Scored floats) (ys : List (Scored floats)) → Permᴰ (insert_scored floats x ys) (x ∷ ys)
  unfolding insert_scored
  insert_scored-Perm (r, d, s) [] = Permᴰ.cons refl Permᴰ.nil
  insert_scored-Perm (r, d, s) ((r', d', s') ∷ ys) = elim (Bool-cases (floats.lt d' d)) [
    | inl e ↦
        rw e
          (Permᴰ.trans (Permᴰ.cons refl (insert_scored-Perm (r, d, s) ys)) (Permᴰ.swap refl refl))
    | inr e ↦ rw e (Permᴰ.refl ((r, d, s) ∷ (r', d', s') ∷ ys))
  ]

  closest_first-Perm : (xs : List (Scored floats)) → Permᴰ (closest_first floats xs) xs
  unfolding closest_first
  closest_first-Perm [] = Permᴰ.nil
  closest_first-Perm (x ∷ xs) =
      Permᴰ.trans (insert_scored-Perm x (closest_first floats xs))
        (Permᴰ.cons refl (closest_first-Perm xs))

  pub score_runs :
      (window : ℤ) (ctx : ResolveContext) (runs : List Run)
      → is_zero floats (window_seconds floats window ctx) ≡ false
      → traverse (score_run floats window ctx) runs ≡ ok (map (placed floats window ctx) runs)
  unfolding score_run
  score_runs window ctx [] h = refl
  score_runs window ctx (run ∷ runs) h = rw h (rw (score_runs window ctx runs h) refl)

  -- What scoring comes to: every run scored and sorted, or the error of a zero window.
  abbrev pub Ranked : ℤ → ResolveContext → List Run → Result (List (Scored floats)) → Type 0
  Ranked window ctx runs (err x) =
      (x ≡ division_by_zero) × (is_zero floats (window_seconds floats window ctx) ≡ true)
  Ranked window ctx runs (ok scored) =
      (scored ≡ map (placed floats window ctx) runs)
      × IsSorted (closest_first floats scored)
      × Permᴰ (closest_first floats scored) scored

  score_run-Ranked :
      ((a b : S) → floats.lt a b ≡ true → floats.lt b a ≡ false)
      → (window : ℤ) (ctx : ResolveContext) (runs : List Run)
      → Ranked window ctx runs (traverse (score_run floats window ctx) runs)
  unfolding score_run
  score_run-Ranked asym window ctx [] =
      (refl, closest_first-IsSorted asym [], closest_first-Perm [])
  score_run-Ranked asym window ctx (run ∷ runs) =
      let scored = map (placed floats window ctx) (run ∷ runs) in
      elim (Bool-cases (is_zero floats (window_seconds floats window ctx))) [
        | inl e ↦ rw e (refl, e)
        | inr e ↦
            rw (score_runs window ctx (run ∷ runs) e)
              (refl, closest_first-IsSorted asym scored, closest_first-Perm scored)
      ]

  -- The runs that the entity tier considers are near the outcome, by the window that the outcome
  -- declares or else the default, and no two have the same id. Given that the order of the floating
  -- numbers is asymmetric, each of these runs is then scored, and they are put in an order of the
  -- same runs in which none is strictly closer in time than the one before it; or scoring raises a
  -- division by zero, which it does only where the window is zero seconds.
  pub matching_runs-closest_first :
      (repo : RunRepository) (window : ℤ) (ctx : ResolveContext)
      → ((a b : S) → floats.lt a b ≡ true → floats.lt b a ≡ false)
      → IsDistinct (matching_runs floats repo window ctx)
        × AllNear (within_window floats window ctx) (matching_runs floats repo window ctx)
        × Ranked window ctx
            (matching_runs floats repo window ctx)
            (traverse (score_run floats window ctx) (matching_runs floats repo window ctx))
  matching_runs-closest_first repo window ctx asym =
      let near = within_window floats window ctx in
      let kept = collect_runs-IsDistinct near repo ctx.tenant_id ctx.entity_keys [] tt tt in
      (
        (unfold matching_runs in kept.0),
        (unfold matching_runs in kept.1),
        score_run-Ranked asym window ctx (matching_runs floats repo window ctx),
      )
