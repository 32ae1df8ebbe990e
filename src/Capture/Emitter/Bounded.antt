-- ===== src/Capture/Emitter/Bounded.antt =====
-- No event is lost without being counted, and the buffer never outgrows its bound.
use valuemaxx.Base.{
  ℕ, suc, ◌+◌, ◌≤◌, ◌≡◌, refl, ◌∙◌, Bool, List, [], ◌∷◌, String, length, length-append, leb,
  leb_false→lt, arith, Bool-cases, inl, inr,
}
use valuemaxx.Base.Int.{ℤ}
use valuemaxx.Base.Result.{ok}
use valuemaxx.Core.Provenance.{CostEvent}
use valuemaxx.Capture.Emitter.{Emitter, make_emitter, enqueue, drain_from, drain}

-- What is done with an emitter.
pub data Action : Type 0 where
  offer : CostEvent → Action
  flush : Action

-- How many events are enqueued.
unfoldable pub puts : List Action → ℕ
puts [] = 0
puts (offer event ∷ actions) = suc (puts actions)
puts (flush ∷ actions) = puts actions

-- The emitter and the store, with the numbers of events offered and persisted so far.
pub record Progress (S : Type 0) : Type 0 where
  pub emitter : Emitter
  pub store : S
  pub offered : ℕ
  pub persisted : ℕ

module _ {S : Type 0} (upsert : String → CostEvent → S → S × Bool) where
  abbrev flushed : Progress S → Emitter × S × ℕ → Progress S
  flushed p (e, store, n) = record p { emitter = e; store = store; persisted = p.persisted + n }

  unfoldable pub act : Action → Progress S → Progress S
  act (offer event) p = record p { emitter = enqueue event p.emitter; offered = suc p.offered }
  act flush p = flushed p (drain upsert p.emitter p.store)

  unfoldable pub act_all : List Action → Progress S → Progress S
  act_all [] p = p
  act_all (a ∷ actions) p = act_all actions (act a p)

  drain_from_counts :
      (queue : List CostEvent) (store : S) (dropped persisted : ℕ)
      → (drain_from upsert queue store dropped persisted).1
          + (drain_from upsert queue store dropped persisted).2
        ≡ dropped + persisted + length queue
  unfolding drain_from
  drain_from_counts [] store dropped persisted = omega arith
  drain_from_counts (event ∷ queue) store dropped persisted =
      elim (Bool-cases (upsert event.tenant_id event store).1) [
        | inl e ↦
            rw (e, drain_from)
              (drain_from_counts queue (upsert event.tenant_id event store).0 dropped
                  (suc persisted)
                ∙ omega arith)
        | inr e ↦
            rw (e, drain_from)
              (drain_from_counts queue (upsert event.tenant_id event store).0 (suc dropped)
                  persisted
                ∙ omega arith)
      ]

  -- The bound holds, and every event offered is persisted, dropped or waiting.
  record IsAccounted (p : Progress S) : Type 0 where
    within : length p.emitter.queue ≤ p.emitter.max_queue
    accounted : p.offered ≡ p.persisted + p.emitter.dropped + length p.emitter.queue

  enqueue-IsAccounted :
      (event : CostEvent) (p : Progress S) → IsAccounted p → IsAccounted (act (offer event) p)
  unfolding act enqueue
  enqueue-IsAccounted event p h =
      elim (Bool-cases (leb p.emitter.max_queue (length p.emitter.queue))) [
        | inl e ↦ rw e (record { within = h.within; accounted = omega (arith, h.accounted) })
        | inr e ↦ rw e (record {
          within = omega (arith, leb_false→lt _ _ e, length-append p.emitter.queue (event ∷ []));
          accounted = omega (arith, h.accounted, length-append p.emitter.queue (event ∷ []));
        })
      ]

  flush-IsAccounted : (p : Progress S) → IsAccounted p → IsAccounted (act flush p)
  unfolding act drain
  flush-IsAccounted p h = record {
    within = omega arith;
    accounted =
        omega (arith, h.accounted, drain_from_counts p.emitter.queue p.store p.emitter.dropped 0);
  }

  act_all-IsAccounted :
      (actions : List Action) (p : Progress S) → IsAccounted p → IsAccounted (act_all actions p)
  unfolding act_all
  act_all-IsAccounted [] p h = h
  act_all-IsAccounted (offer event ∷ actions) p h =
      act_all-IsAccounted actions (act (offer event) p) (enqueue-IsAccounted event p h)
  act_all-IsAccounted (flush ∷ actions) p h =
      act_all-IsAccounted actions (act flush p) (flush-IsAccounted p h)

  act_all_offered :
      (actions : List Action) (p : Progress S)
      → (act_all actions p).offered ≡ p.offered + puts actions
  unfolding act_all puts act
  act_all_offered [] p = omega arith
  act_all_offered (offer event ∷ actions) p =
      act_all_offered actions (act (offer event) p) ∙ omega arith
  act_all_offered (flush ∷ actions) p = act_all_offered actions (act flush p)

  enqueue_max : (event : CostEvent) (e : Emitter) → (enqueue event e).max_queue ≡ e.max_queue
  unfolding enqueue
  enqueue_max event e = elim (Bool-cases (leb e.max_queue (length e.queue))) [
    | inl h ↦ rw h refl
    | inr h ↦ rw h refl
  ]

  act_all_max :
      (actions : List Action) (p : Progress S)
      → (act_all actions p).emitter.max_queue ≡ p.emitter.max_queue
  unfolding act_all act drain
  act_all_max [] p = refl
  act_all_max (offer event ∷ actions) p =
      act_all_max actions (act (offer event) p) ∙ enqueue_max event p.emitter
  act_all_max (flush ∷ actions) p = act_all_max actions (act flush p)

  abbrev pub start : Emitter → S → Progress S
  start e store = record { emitter = e; store = store; offered = 0; persisted = 0 }

  start-IsAccounted :
      (n : ℕ) (store : S)
      → IsAccounted (start (record { max_queue = n; queue = []; dropped = 0 }) store)
  start-IsAccounted n store = record { within = omega arith; accounted = refl }

  -- Whatever is enqueued and drained in whatever order, and whichever upserts raise: the buffer of a
  -- new emitter stays within the bound it was made with, and the number of events enqueued is the
  -- number persisted, plus the number counted as dropped, plus the number still buffered.
  pub act_all-enqueue :
      (n : ℕ) (e : Emitter) (store : S) (actions : List Action)
      → make_emitter (ℤ.pos n) ≡ ok e
      → (length (act_all actions (start e store)).emitter.queue ≤ n)
        × (puts actions
            ≡ (act_all actions (start e store)).persisted
              + (act_all actions (start e store)).emitter.dropped
              + length (act_all actions (start e store)).emitter.queue)
  unfolding make_emitter
  act_all-enqueue n e store actions h =
      let new : Emitter = record { max_queue = n; queue = []; dropped = 0 } in
      let same : new ≡ e = cc h in
      rw (← same) (
        let kept = act_all-IsAccounted actions (start new store) (start-IsAccounted n store) in
        (
          omega (arith, kept.within, act_all_max actions (start new store)),
          omega (arith, kept.accounted, act_all_offered actions (start new store)),
        ))
