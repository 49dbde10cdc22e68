-- ===== src/Selector/Stale.antt =====
-- src/server_selector.c: failure epochs, which keep an old success from clearing a newer failure,
-- and failed probes.
use tproxy2ss.Base.{
  ℕ, zero, suc, ◌+◌, ◌%◌, ◌^◌, ◌<◌, ◌≡◌, ◌≢◌, refl, sym, ap, ◌∙◌, arith, Bool, true, false, some,
  List, [], ◌∷◌, length, get_or, set, leb, ◌==◌, Bool-cases, inl, inr,
}
use mathlib.Core.Bool.{true≢false}
use tproxy2ss.Selector.Score.{Double, Sample}
use tproxy2ss.Selector.Defs.{
  Selector, attempt_epoch, mark_failed, judge, report_tcp_failure, report_tcp_success, record_probe,
  unknown, failed,
}
use tproxy2ss.Selector.Best.{update_best-index, update_best-failover}

get_or-set_self :
    {A : Type 0} (l : List A) (i : ℕ) (x d : A) → i < length l → get_or (set l i x) i d ≡ x
get_or-set_self [] i x d h = absurd (omega arith)
get_or-set_self (y ∷ l) zero x d h = refl
get_or-set_self (y ∷ l) (suc i) x d h = get_or-set_self l i x d (omega arith)

module _ {D : Type 0} where
  -- What a failure report leaves: the epoch is the next one, and the server is marked as failed.
  failure-marks :
      (s : Selector D) (i : ℕ)
      → s.best_idx < s.server_count
      → i < s.server_count
      → i < length s.failure_epoch
      → i < length s.health
      → (attempt_epoch (report_tcp_failure s i) i ≡ (attempt_epoch s i + 1) % 2 ^ 64)
        × (get_or (report_tcp_failure s i).health i unknown ≡ failed)
  unfolding report_tcp_failure mark_failed attempt_epoch
  failure-marks s i b h l m =
      let inside : leb s.server_count i ≡ false = ground (arith, h) in
      let (k, kl, e) = update_best-index (mark_failed s i) (some i) false b in
      rw (inside, e)
        (get_or-set_self s.failure_epoch i _ 0 l, get_or-set_self s.health i failed unknown m)

  ignored : (t : Selector D) (i a : ℕ) → a ≢ attempt_epoch t i → report_tcp_success t i a ≡ t
  unfolding report_tcp_success
  ignored t i a n =
      let other : (a == attempt_epoch t i) ≡ false = ground (arith, n) in
      elim (Bool-cases (leb t.server_count i)) [
        | inl out ↦ rw out refl
        | inr inside ↦ rw (inside, other) refl
      ]

  -- For a server whose index is within the arrays, when the best index is that of a server: a
  -- success report with the epoch from just before a failure report changes nothing after that
  -- failure, and the server stays marked as failed.
  pub report_tcp_success-stale :
      (s : Selector D) (i : ℕ)
      → s.best_idx < s.server_count
      → i < s.server_count
      → i < length s.failure_epoch
      → i < length s.health
      → attempt_epoch s i < 2 ^ 64
      → (report_tcp_success (report_tcp_failure s i) i (attempt_epoch s i) ≡ report_tcp_failure s i)
        × (get_or
              (report_tcp_success (report_tcp_failure s i) i (attempt_epoch s i)).health
              i
              unknown
            ≡ failed)
  report_tcp_success-stale s i b h l m w =
      let (epoch, marked) = failure-marks s i b h l m in
      let stale =
        ignored (report_tcp_failure s i) i (attempt_epoch s i) (λ e. omega (arith, e ∙ epoch, w)) in
      (stale, ap (λ (t : Selector D). get_or t.health i unknown) stale ∙ marked)

  judged :
      (s : Selector D) (epoch : ℕ) (errored : Bool)
      → errored ≡ true
      → 1 < s.server_count
      → (judge s s.best_idx epoch errored).best_idx ≢ s.best_idx
  unfolding judge mark_failed
  judged s epoch true e h = update_best-failover (mark_failed s s.best_idx) false h
  judged s epoch false e h = absurd (true≢false (sym e))

  -- A failed probe of the best server moves the best index elsewhere if there are two servers
  -- or more.
  pub record_probe-moves :
      (double : Double D) (s : Selector D) (x : Sample D) (epoch : ℕ)
      → x.errored ≡ true
      → 1 < s.server_count
      → (record_probe double s s.best_idx x epoch).best_idx ≢ s.best_idx
  unfolding record_probe
  record_probe-moves double s x epoch e h = judged _ epoch x.errored e h
