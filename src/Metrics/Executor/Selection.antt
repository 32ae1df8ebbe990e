-- ===== src/Metrics/Executor/Selection.antt =====
-- Every outcome is selected by some group key, whatever the plan groups by.
use mathlib.Core.Path.{subst}
use text.Mathlib.TextEquality.{eq_iff}
use valuemaxx.Base.{
  ◌≡◌, inl, inr, refl, sym, ◌∙◌, Bool, true, ◌&&◌, ◌||◌, Option, none, some, List, [], ◌∷◌, ◌++◌,
  String, All, Any, arith, Bool-cases,
}
use valuemaxx.Base.Text.{same_text, same_text-eq}
use valuemaxx.Metrics.Executor.Keys.{
  GroupKey, find, outcome_part, with_part, outcome_group_key, same_group_key, seen_key, add_key,
  add_keys, or_ungrouped, group_keys, agrees, covers, matches_key,
}

same_text_refl : (s : String) → same_text s s ≡ true
same_text_refl s = (eq_iff s s).1 refl

-- Every part of a key has the one value.
abbrev Carries : String → GroupKey → Type 0
Carries name = All (λ p. p.1 ≡ name)

with_part-Carries :
    (name d : String) (part : Option String) (key : GroupKey)
    → ((v : String) → part ≡ some v → v ≡ name)
    → Carries name key
    → Carries name (with_part d part key)
with_part-Carries name d none key value h = h
with_part-Carries name d (some v) key value h = (value v refl, h)

outcome_part_value : (name d v : String) → outcome_part name d ≡ some v → v ≡ name
unfolding outcome_part
outcome_part_value name d v h = ground arith

outcome_group_key-Carries :
    (name : String) (ds : List String) → Carries name (outcome_group_key name ds)
unfolding outcome_group_key
outcome_group_key-Carries name [] = tt
outcome_group_key-Carries name (d ∷ ds) =
    with_part-Carries name d (outcome_part name d) (outcome_group_key name ds)
      (outcome_part_value name d) (outcome_group_key-Carries name ds)

find-agrees :
    (name d : String) (key : GroupKey) → Carries name key → agrees (find key d) name ≡ true
unfolding find
find-agrees name d [] h = refl
find-agrees name d ((k, v) ∷ key) h = elim (Bool-cases (same_text k d)) [
  | inl e ↦ rw e (rw h.0 (same_text_refl name))
  | inr e ↦ rw e (find-agrees name d key h.1)
]

covers_same :
    (name : String) (record_key key : GroupKey)
    → Carries name record_key
    → Carries name key
    → covers record_key key ≡ true
unfolding covers
covers_same name record_key [] hr h = refl
covers_same name record_key ((d, v) ∷ key) hr h =
    rw h.0 (rw (find-agrees name d record_key hr) (covers_same name record_key key hr h.1))

matches_same : (name : String) (key : GroupKey) → Carries name key → matches_key key key ≡ true
unfolding matches_key
matches_same name [] h = refl
matches_same name (p ∷ key) h = covers_same name (p ∷ key) (p ∷ key) h h

both_true : (a b : Bool) → (a && b) ≡ true → (a ≡ true) × (b ≡ true)
both_true a b h = ground arith

same_group_key_refl : (k : GroupKey) → same_group_key k k ≡ true
unfolding same_group_key
same_group_key_refl [] = refl
same_group_key_refl ((d, v) ∷ k) =
    rw (same_text_refl d) (rw (same_text_refl v) (same_group_key_refl k))

same_group_key-eq : (k k' : GroupKey) → same_group_key k k' ≡ true → k ≡ k'
unfolding same_group_key
same_group_key-eq [] [] h = refl
same_group_key-eq [] (q ∷ qs) h = cc h
same_group_key-eq (p ∷ ps) [] h = cc h
same_group_key-eq ((d, v) ∷ ps) ((d', v') ∷ qs) h =
    let both = both_true (same_text d d' && same_text v v') (same_group_key ps qs) h in
    let fields = both_true (same_text d d') (same_text v v') both.0 in
    rw (same_text-eq d d' fields.0, same_text-eq v v' fields.1, same_group_key-eq ps qs both.1) refl

seen_key-Any :
    (k : GroupKey) (keys : List GroupKey) → seen_key k keys ≡ true → Any (λ j. k ≡ j) keys
unfolding seen_key
seen_key-Any k [] h = cc h
seen_key-Any k (j ∷ keys) h = elim (Bool-cases (same_group_key k j)) [
  | inl e ↦ inl (same_group_key-eq k j e)
  | inr e ↦ inr (seen_key-Any k keys (rw e at h))
]

seen_key-append :
    (k : GroupKey) (xs ys : List GroupKey)
    → seen_key k (xs ++ ys) ≡ (seen_key k xs || seen_key k ys)
unfolding seen_key
seen_key-append k [] ys = refl
seen_key-append k (x ∷ xs) ys = elim (Bool-cases (same_group_key k x)) [
  | inl e ↦ rw e refl
  | inr e ↦ rw e (seen_key-append k xs ys)
]

seen_here : (k : GroupKey) → seen_key k (k ∷ []) ≡ true
unfolding seen_key
seen_here k = rw (same_group_key_refl k) refl

add_key_keeps :
    (k j : GroupKey) (keys : List GroupKey)
    → seen_key k keys ≡ true
    → seen_key k (add_key j keys) ≡ true
unfolding add_key
add_key_keeps k [] keys h = h
add_key_keeps k (p ∷ ps) keys h = elim (Bool-cases (seen_key (p ∷ ps) keys)) [
  | inl e ↦ rw e h
  | inr e ↦ rw e (seen_key-append k keys ((p ∷ ps) ∷ []) ∙ rw h refl)
]

add_key_adds :
    (p : String × String) (ps : GroupKey) (keys : List GroupKey)
    → seen_key (p ∷ ps) (add_key (p ∷ ps) keys) ≡ true
unfolding add_key
add_key_adds p ps keys = elim (Bool-cases (seen_key (p ∷ ps) keys)) [
  | inl e ↦ rw e e
  | inr e ↦ rw e (seen_key-append (p ∷ ps) keys ((p ∷ ps) ∷ []) ∙ rw (e, seen_here (p ∷ ps)) refl)
]

add_keys_keeps :
    (k : GroupKey) (keys more : List GroupKey)
    → seen_key k keys ≡ true
    → seen_key k (add_keys keys more) ≡ true
unfolding add_keys
add_keys_keeps k keys [] h = h
add_keys_keeps k keys (j ∷ more) h =
    add_keys_keeps k (add_key j keys) more (add_key_keeps k j keys h)

add_keys_adds :
    (p : String × String) (ps : GroupKey) (keys more : List GroupKey)
    → Any (λ j. j ≡ p ∷ ps) more
    → seen_key (p ∷ ps) (add_keys keys more) ≡ true
unfolding add_keys
add_keys_adds p ps keys [] h = absurd h
add_keys_adds p ps keys (j ∷ more) (inl e) =
    add_keys_keeps (p ∷ ps) (add_key j keys) more (rw e (add_key_adds p ps keys))
add_keys_adds p ps keys (j ∷ more) (inr h) = add_keys_adds p ps (add_key j keys) more h

or_ungrouped-Any :
    (P : GroupKey → Type 0) (keys : List GroupKey) → Any P keys → Any P (or_ungrouped keys)
or_ungrouped-Any P [] h = absurd h
or_ungrouped-Any P (k ∷ keys) h = h

matches_everywhere : (keys : List GroupKey) → Any (λ j. matches_key [] j ≡ true) (or_ungrouped keys)
unfolding matches_key
matches_everywhere [] = inl refl
matches_everywhere (k ∷ keys) = inl refl

pub Any-map {ℓ} :
    {A : Type ℓ} (P Q : A → Type 0) (xs : List A) → ((x : A) → P x → Q x) → Any P xs → Any Q xs
Any-map P Q [] f h = absurd h
Any-map P Q (x ∷ xs) f (inl h) = inl (f x h)
Any-map P Q (x ∷ xs) f (inr h) = inr (Any-map P Q xs f h)

-- Some group key selects an outcome whose key is among the outcomes'.
pub selected :
    (name : String) (group_by : List String) (cost_keys outcome_keys : List GroupKey) (k : GroupKey)
    → k ≡ outcome_group_key name group_by
    → Any (λ j. j ≡ k) outcome_keys
    → Any (λ j. matches_key k j ≡ true) (group_keys group_by cost_keys outcome_keys)
unfolding group_keys
selected name [] cs os k e h = inl (rw e (unfold outcome_group_key matches_key in refl))
selected name (d ∷ ds) cs os [] e h = matches_everywhere (add_keys (add_keys [] cs) os)
selected name (d ∷ ds) cs os (p ∷ ps) e h =
    or_ungrouped-Any (λ j. matches_key (p ∷ ps) j ≡ true) (add_keys (add_keys [] cs) os)
      (Any-map (λ j. p ∷ ps ≡ j) (λ j. matches_key (p ∷ ps) j ≡ true) (add_keys (add_keys [] cs) os)
        (λ j e'.
          subst (λ i. matches_key (p ∷ ps) i ≡ true) e'
            (matches_same name (p ∷ ps)
              (subst (Carries name) (sym e) (outcome_group_key-Carries name (d ∷ ds)))))
        (seen_key-Any (p ∷ ps) (add_keys (add_keys [] cs) os)
          (add_keys_adds p ps (add_keys [] cs) os h)))
