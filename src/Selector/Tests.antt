-- ===== src/Selector/Tests.antt =====
-- The theorems on src/server_selector.c at a selector of two servers, with numbers for doubles.
use tproxy2ss.Base.{
  ℕ, ◌+◌, ◌-◌, ◌*◌, ◌/◌, ◌≡◌, ◌≢◌, refl, arith, true, false, ◌∷◌, get_or, replicate, ltb,
}
use tproxy2ss.Base.Word.{u32_max}
use tproxy2ss.Base.Number.{pos}
use tproxy2ss.Selector.Score.{Double, Sample, Window}
use tproxy2ss.Selector.Defs.{
  Selector, unknown, ok, failed, attempt_epoch, candidate, report_tcp_failure, report_tcp_success,
  record_probe,
}
use tproxy2ss.Selector.Candidate.{Chosen, candidate-Chosen}
use tproxy2ss.Selector.Best.{report_tcp_failure-moves}
use tproxy2ss.Selector.Stale.{report_tcp_success-stale}
use tproxy2ss.Selector.Reach.{
  IsWindow, IsSound, Reach, here, after, failure, probe, Selector-Reach-IsSound,
}

abbrev numbers : Double ℕ
numbers = record {
  of_u32 = λ n. n;
  to_u32 = λ n. n;
  d_add = ◌+◌;
  d_sub = ◌-◌;
  d_mul = ◌*◌;
  d_div = ◌/◌;
  d_greater = λ a b. ltb b a;
}

abbrev no_sample : Sample ℕ
no_sample = record { latency_ms = 0; errored = false; ts = 0 }

abbrev bad_sample : Sample ℕ
bad_sample = record { latency_ms = 5000; errored = true; ts = 9 }

abbrev empty_window : Window ℕ
empty_window = record { samples = replicate 67 no_sample; head = 0; count = 0 }

abbrev pair : Selector ℕ
pair = record {
  server_count = 2;
  best_idx = 0;
  health = ok ∷ ok ∷ replicate 6 unknown;
  failure_epoch = replicate 8 0;
  scores = 10 ∷ 20 ∷ replicate 6 u32_max;
  windows = replicate 8 empty_window;
  probes_remaining = pos 0;
}

empty_window-IsWindow : IsWindow empty_window
empty_window-IsWindow = record { size = refl; head_in = omega arith; count_in = omega arith }

pair-IsSound : IsSound pair
pair-IsSound =
    let w = empty_window-IsWindow in
    record {
      best_in = omega arith;
      servers = omega arith;
      health_size = refl;
      epoch_size = refl;
      windows_size = refl;
      in_windows = (w, (w, (w, (w, (w, (w, (w, (w, tt))))))));
    }

two_events : Reach numbers pair (report_tcp_failure (record_probe numbers pair 1 bad_sample 0) 0)
two_events =
    after (after here (probe pair 1 0 bad_sample (omega arith)))
      (failure (record_probe numbers pair 1 bad_sample 0) 0)

Selector-Reach-IsSound_example :
    IsSound (report_tcp_failure (record_probe numbers pair 1 bad_sample 0) 0)
Selector-Reach-IsSound_example =
    Selector-Reach-IsSound numbers pair
      (report_tcp_failure (record_probe numbers pair 1 bad_sample 0) 0) two_events pair-IsSound

candidate-Chosen_example : Chosen pair 1 2 (candidate pair 1)
candidate-Chosen_example = candidate-Chosen pair 1

report_tcp_failure-moves_example : (report_tcp_failure pair 0).best_idx ≢ 0
report_tcp_failure-moves_example = report_tcp_failure-moves pair (omega arith) (omega arith)

report_tcp_success-stale_example :
    (report_tcp_success (report_tcp_failure pair 1) 1 (attempt_epoch pair 1)
      ≡ report_tcp_failure pair 1)
    × (get_or
          (report_tcp_success (report_tcp_failure pair 1) 1 (attempt_epoch pair 1)).health
          1
          unknown
        ≡ failed)
unfolding attempt_epoch
report_tcp_success-stale_example =
    report_tcp_success-stale pair 1 (omega arith) (omega arith) (omega arith) (omega arith)
      (omega arith)
