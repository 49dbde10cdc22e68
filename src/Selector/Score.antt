-- ===== src/Selector/Score.antt =====
-- src/server_selector.c: the window of probe samples and `ss_compute_score`. Doubles and their
-- operations are a parameter; `qsort` with `cmp_u32` is an insertion sort, which gives the same
-- array.
use tproxy2ss.Base.{
  ℕ, zero, suc, ◌+◌, ◌-◌, ◌/◌, ◌%◌, Bool, List, [], ◌∷◌, length, get_or, set, ltb, ◌==◌,
  if◌then◌else◌,
}
use tproxy2ss.Base.Word.{u32_max}

abbrev pub window_slots : ℕ
window_slots = 67

abbrev pub max_rtt_ms : ℕ
max_rtt_ms = 5000

-- The arithmetic of C's `double` that the score uses
pub record Double (D : Type 0) : Type 0 where
  pub of_u32 : ℕ → D
  pub to_u32 : D → ℕ
  pub d_add : D → D → D
  pub d_sub : D → D → D
  pub d_mul : D → D → D
  pub d_div : D → D → D
  pub d_greater : D → D → Bool

-- `ss_sample_t`
pub record Sample (D : Type 0) : Type 0 where
  pub latency_ms : ℕ
  pub errored : Bool
  pub ts : D

-- One of the windows of `ss_server_t`
pub record Window (D : Type 0) : Type 0 where
  pub samples : List (Sample D)
  pub head : ℕ
  pub count : ℕ

insert_u32 : ℕ → List ℕ → List ℕ
insert_u32 x [] = x ∷ []
insert_u32 x (y ∷ l) = let rest = insert_u32 x l in if ltb y x then y ∷ rest else x ∷ y ∷ l

unfoldable pub sort_u32 : List ℕ → List ℕ
unfolding insert_u32
sort_u32 [] = []
sort_u32 (x ∷ l) = insert_u32 x (sort_u32 l)

unfoldable pub deviations : ℕ → List ℕ → List ℕ
deviations median [] = []
deviations median (x ∷ l) = (if ltb median x then x - median else median - x) ∷ deviations median l

module _ {D : Type 0} (double : Double D) where
  num : ℕ → D
  num n = double.of_u32 n

  -- `SS_WINDOW_SEC` is 60.0 * 67.
  unfoldable pub expired : D → Sample D → Bool
  unfolding num
  expired now s = double.d_greater (double.d_sub now s.ts) (double.d_mul (num 60) (num 67))

  -- The loop over the window: the latencies of the successes, and the number of failures
  unfoldable pub gather : D → Window D → Sample D → ℕ → ℕ → List ℕ × ℕ
  gather now w none_yet zero i = ([], 0)
  gather now w none_yet (suc left) i =
      let s = get_or w.samples ((w.head + window_slots + i - w.count) % window_slots) none_yet in
      let (latencies, fail) = gather now w none_yet left (i + 1) in
      if expired now s
      then (latencies, fail)
      else if s.errored
      then (latencies, fail + 1)
      else ((if ltb s.latency_ms max_rtt_ms then s.latency_ms else max_rtt_ms) ∷ latencies, fail)

  -- `(nrtt + fail_rate * 3.0 + nmad) / 5.0 * 10000.0` as `uint32_t`
  unfoldable pub weigh : D → D → D → ℕ
  unfolding num
  weigh nrtt fail_rate nmad = double.to_u32 (
      double.d_mul
        (double.d_div (double.d_add (double.d_add nrtt (double.d_mul fail_rate (num 3))) nmad)
          (num 5))
        (num 10000))

  unfoldable pub capped : D → D
  unfolding num
  capped d = if double.d_greater d (num 1) then num 1 else d

  unfoldable pub score_of : List ℕ × ℕ → ℕ
  unfolding num
  score_of (latencies, fail) =
      let n = length latencies in
      let fail_rate = double.d_div (num fail) (num (n + fail)) in
      let sorted = sort_u32 latencies in
      let median = get_or sorted (n / 2) 0 in
      let mad = get_or (sort_u32 (deviations median sorted)) (n / 2) 0 in
      if n + fail == 0
      then u32_max
      else if n == 0
      then weigh (num 1) fail_rate (num 1)
      else weigh (capped (double.d_div (num median) (num max_rtt_ms))) fail_rate
          (capped (double.d_div (num mad) (num max_rtt_ms)))

  -- `ss_compute_score`; a slot is read only behind the window's count, so the default is unused.
  unfoldable pub compute_score : Window D → Sample D → D → ℕ
  compute_score w none_yet now = score_of (gather now w none_yet w.count 0)

  -- The sample goes to the head, which moves on.
  unfoldable pub push_sample : Window D → Sample D → Window D
  push_sample w s = record {
    samples = set w.samples w.head s;
    head = (w.head + 1) % window_slots;
    count = if ltb w.count window_slots then w.count + 1 else w.count;
  }
