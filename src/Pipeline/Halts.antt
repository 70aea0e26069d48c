-- ===== src/Pipeline/Halts.antt =====
-- The length of the runs of the pipeline: what each step takes further.
use mathlib.Core.WellFounded.{Acc}
use flower_exchange.Base.{
  ℕ, zero, suc, ◌+◌, ◌<◌, ◌≤◌, ap, arith, Bool, true, false, Option, none, some, length,
}
use flower_exchange.Types.{Text}
use flower_exchange.Doubles.{Doubles}
use flower_exchange.Pipeline.{
  Capacities, Pipeline, Step, push_inbound, finish_producer, pop_inbound, push_outbound,
  finish_matcher, pop_outbound, finish_writer,
}

-- Induction on a measure.
by_measure :
    {A : Type 0} (measure : A → ℕ) (P : A → Type 0)
    → ((a : A) → ((b : A) → measure b < measure a → P b) → P a)
    → (a : A) → P a
by_measure {A = A} measure P step a = below (suc (measure a)) a (omega arith)
  where
    below : (k : ℕ) (a : A) → measure a < k → P a
    below zero a h = absurd (omega arith)
    below (suc k) a h = step a (λ b l. below k b (omega (arith, h, l)))

unset : Bool → ℕ
unset true = 0
unset false = 1

open_files : Option Text → ℕ
open_files none = 1
open_files (some text) = 0

module _ (doubles : Doubles) (clock : ℕ → Text) (c : Capacities) where
  flags : Pipeline doubles clock → ℕ
  flags p = unset p.producer_done + unset p.matcher_done + open_files p.output

  -- `q` comes behind `p`.
  abbrev pub Follows : Pipeline doubles clock → Pipeline doubles clock → Type 0
  Follows q p = Step doubles clock c p q

  Halts : Pipeline doubles clock → Type 0
  Halts p = Acc Follows p

  -- The state `q` has less to do than `p`: earlier threads count more.
  module _ (p : Pipeline doubles clock)
      (fewer_to_push : (q : Pipeline doubles clock) → length q.to_push < length p.to_push → Halts q)
      (fewer_inbound : (q : Pipeline doubles clock)
        → length q.inbound_queue < length p.inbound_queue
        → length q.to_push ≤ length p.to_push
        → Halts q)
      (fewer_to_emit : (q : Pipeline doubles clock)
        → length q.to_emit < length p.to_emit
        → length q.to_push ≤ length p.to_push
        → length q.inbound_queue ≤ length p.inbound_queue
        → Halts q)
      (fewer_outbound : (q : Pipeline doubles clock)
        → length q.outbound_queue < length p.outbound_queue
        → length q.to_push ≤ length p.to_push
        → length q.inbound_queue ≤ length p.inbound_queue
        → length q.to_emit ≤ length p.to_emit
        → Halts q)
      (fewer_flags : (q : Pipeline doubles clock)
        → flags q < flags p
        → length q.to_push ≤ length p.to_push
        → length q.inbound_queue ≤ length p.inbound_queue
        → length q.to_emit ≤ length p.to_emit
        → length q.outbound_queue ≤ length p.outbound_queue
        → Halts q) where
    Step-Halts : (q : Pipeline doubles clock) → Step doubles clock c p q → Halts q
    unfolding flags unset open_files
    Step-Halts _ (push_inbound m ms e room) = fewer_to_push _ (omega (arith, ap length e))
    Step-Halts _ (finish_producer e returns going) =
        fewer_flags _ (rw going (omega arith)) (omega arith) (omega arith) (omega arith)
          (omega arith)
    Step-Halts _ (pop_inbound turn ms s outs idle going e empty served) =
        fewer_inbound _ (omega (arith, ap length e)) (omega arith)
    Step-Halts _ (push_outbound out outs e room) =
        fewer_to_emit _ (omega (arith, ap length e)) (omega arith) (omega arith)
    Step-Halts _ (finish_matcher idle over going) =
        fewer_flags _ (rw going (omega arith)) (omega arith) (omega arith) (omega arith)
          (omega arith)
    Step-Halts _ (pop_outbound out outs d e opened row) =
        fewer_outbound _ (omega (arith, ap length e)) (omega arith) (omega arith) (omega arith)
    Step-Halts _ (finish_writer done empty opened) =
        fewer_flags _ (rw opened (omega arith)) (omega arith) (omega arith) (omega arith)
          (omega arith)

  pushes : Pipeline doubles clock → ℕ
  pushes p = length p.to_push

  inbounds : Pipeline doubles clock → ℕ
  inbounds p = length p.inbound_queue

  emits : Pipeline doubles clock → ℕ
  emits p = length p.to_emit

  outbounds : Pipeline doubles clock → ℕ
  outbounds p = length p.outbound_queue

  -- Every sequence of steps ends; the spins are no steps.
  pub Step-Acc : (p : Pipeline doubles clock) → Acc Follows p
  unfolding Halts pushes inbounds emits outbounds
  Step-Acc = by_measure pushes Halts (λ p0 a.
      by_measure inbounds (λ p. pushes p ≤ pushes p0 → Halts p)
        (λ p1 b h1.
          by_measure emits (λ p. pushes p ≤ pushes p0 → inbounds p ≤ inbounds p1 → Halts p)
            (λ p2 d h2 k2.
              by_measure outbounds
                (λ p.
                  pushes p ≤ pushes p0 → inbounds p ≤ inbounds p1 → emits p ≤ emits p2 → Halts p)
                (λ p3 e h3 k3 l3.
                  by_measure flags
                    (λ p.
                      pushes p ≤ pushes p0
                      → inbounds p ≤ inbounds p1
                      → emits p ≤ emits p2
                      → outbounds p ≤ outbounds p3
                      → Halts p)
                    (λ p4 f h4 k4 l4 m4. Acc.intro p4 (
                      Step-Halts p4 (λ q l. a q (omega (arith, l, h4)))
                        (λ q l s. b q (omega (arith, l, k4)) (omega (arith, s, h4)))
                        (λ q l s t.
                          d q (omega (arith, l, l4)) (omega (arith, s, h4)) (omega (arith, t, k4)))
                        (λ q l s t u.
                          e q (omega (arith, l, m4)) (omega (arith, s, h4)) (omega (arith, t, k4))
                            (omega (arith, u, l4)))
                        (λ q l s t u v.
                          f q l (omega (arith, s, h4)) (omega (arith, t, k4)) (omega (arith, u, l4))
                            (omega (arith, v, m4)))))
                    p3 h3 k3 l3 (omega arith))
                p2 h2 k2 (omega arith))
            p1 h1 (omega arith))
        p0 (omega arith))
