-- ===== src/Selector/Defs.antt =====
-- src/server_selector.c: the selector of one protocol and its operations, each of which runs
-- under the selector's lock. An index of -1 is `none`; the stored best index is never negative,
-- since every store is of an index of a server. `failure_epoch` is a `uint64_t`.
use tproxy2ss.Base.{
  ℕ, zero, suc, ◌+◌, ◌-◌, ◌^◌, ◌%◌, bit_and, Bool, true, false, ◌&&◌, ◌||◌, not, Option, none, some,
  List, [], ◌∷◌, get_or, set, ltb, leb, ◌==◌, if◌then◌else◌,
}
use tproxy2ss.Base.Word.{u32_max}
use tproxy2ss.Base.Number.{ℤ, pos, negsuc}
use tproxy2ss.Selector.Score.{Double, Sample, Window, compute_score, push_sample}

abbrev pub max_servers : ℕ
max_servers = 8

abbrev pub switch_threshold : ℕ
switch_threshold = 6

-- `ss_health_t`
pub data Health : Type 0 where
  unknown : Health
  ok : Health
  failed : Health

-- `ss_selector_t` with the scores and windows of its protocol and the server count
pub record Selector (D : Type 0) : Type 0 where
  pub server_count : ℕ
  pub best_idx : ℕ
  pub health : List Health
  pub failure_epoch : List ℕ
  pub scores : List ℕ
  pub windows : List (Window D)
  pub probes_remaining : ℤ

-- `ss_health_rank`
unfoldable pub health_rank : Health → ℕ
health_rank ok = 0
health_rank unknown = 1
health_rank failed = 2

unfoldable pub repeat : {A : Type 0} → ℕ → A → List A
repeat zero x = []
repeat (suc n) x = x ∷ repeat n x

-- `mask & (1u << i)`
unfoldable pub tried : ℕ → ℕ → Bool
tried mask i = not (bit_and mask (2 ^ i) == 0)

unfoldable pub is_index : Option ℕ → ℕ → Bool
is_index none i = false
is_index (some k) i = k == i

-- `--n`
unfoldable pub decrement : ℤ → ℤ
decrement (pos zero) = negsuc 0
decrement (pos (suc n)) = pos n
decrement (negsuc n) = negsuc (suc n)

unfoldable pub is_zero : ℤ → Bool
is_zero (pos n) = n == 0
is_zero (negsuc n) = false

unfoldable pub is_positive : ℤ → Bool
is_positive (pos n) = ltb 0 n
is_positive (negsuc n) = false

unfoldable pub reset_scores : ℕ → List ℕ → List ℕ
reset_scores zero l = l
reset_scores (suc n) [] = []
reset_scores (suc n) (x ∷ l) = u32_max ∷ reset_scores n l

module _ {D : Type 0} where
  unfoldable pub rank_at : Selector D → ℕ → ℕ
  unfolding health_rank
  rank_at s i = health_rank (get_or s.health i unknown)

  unfoldable pub score_at : Selector D → ℕ → ℕ
  score_at s i = get_or s.scores i u32_max

  -- `ss_better_locked`
  unfoldable pub better : Selector D → ℕ → ℕ → Bool
  better s a b =
      ltb (rank_at s a) (rank_at s b)
      || ((rank_at s a == rank_at s b) && ltb (score_at s a) (score_at s b))

  -- One round of the loop in `ss_candidate_locked`
  unfoldable pub consider : Selector D → ℕ → ℕ → Option ℕ → Option ℕ
  consider s mask i none = if tried mask i then none else some i
  consider s mask i (some best) =
      if tried mask i then some best else if better s i best then some i else some best

  unfoldable pub candidate_from : Selector D → ℕ → ℕ → ℕ → Option ℕ → Option ℕ
  candidate_from s mask zero i best = best
  candidate_from s mask (suc left) i best =
      candidate_from s mask left (i + 1) (consider s mask i best)

  -- `ss_candidate_locked`
  unfoldable pub candidate : Selector D → ℕ → Option ℕ
  candidate s mask =
      candidate_from s mask s.server_count 0
        (if leb s.server_count s.best_idx || tried mask s.best_idx then none else some s.best_idx)

  unfoldable pub same_health : Selector D → ℕ → ℕ → Bool
  same_health s a b = rank_at s a == rank_at s b

  -- The gates in front of the store
  unfoldable pub switch : Selector D → Bool → Bool → ℕ → Selector D
  switch s force allow_score_switch best =
      let prev = s.best_idx in
      let score = score_at s best in
      let prev_score = score_at s prev in
      if best == prev
      then s
      else if not force && not allow_score_switch && same_health s best prev
      then s
      else if not force
          && same_health s best prev
          && (leb prev_score score || leb (prev_score - score) switch_threshold)
      then s
      else record s { best_idx = best }

  -- `ss_update_best_locked`. With `force` the second candidate exists when there are two servers.
  unfoldable pub update_best : Selector D → Option ℕ → Bool → Selector D
  update_best s failed_idx allow_score_switch =
      let prev = s.best_idx in
      let force = is_index failed_idx prev && ltb 1 s.server_count in
      elim (candidate s 0) [
        | none ↦ s
        | some best ↦
            if force && best == prev
            then elim (candidate s (2 ^ prev)) [
              | none ↦ s
              | some other ↦ switch s force allow_score_switch other
            ]
            else switch s force allow_score_switch best
      ]

  -- `ss_attempt_epoch`, that is `server_selector_tcp_attempt`
  unfoldable pub attempt_epoch : Selector D → ℕ → ℕ
  attempt_epoch s idx = get_or s.failure_epoch idx 0

  -- `server_selector_next_best_tcp`
  unfoldable pub next_best_tcp : Selector D → ℕ → Option ℕ
  next_best_tcp s tried_mask = candidate s tried_mask

  -- `server_selector_udp_replacement`
  unfoldable pub udp_replacement : Selector D → ℕ → Option ℕ
  udp_replacement s server_idx =
      if ltb server_idx s.server_count
        && ltb s.best_idx s.server_count
        && not (s.best_idx == server_idx)
        && rank_at s server_idx == 2
        && rank_at s s.best_idx == 0
      then some s.best_idx
      else none

  -- `failure_epoch[idx]++` and `health[idx] = SS_HEALTH_FAILED`
  unfoldable pub mark_failed : Selector D → ℕ → Selector D
  mark_failed s idx = record s {
    failure_epoch = set s.failure_epoch idx ((attempt_epoch s idx + 1) % 2 ^ 64);
    health = set s.health idx failed;
  }

  -- An older attempt does not clear a newer failure.
  unfoldable pub mark_ok : Selector D → ℕ → ℕ → Selector D
  mark_ok s idx epoch =
      if epoch == attempt_epoch s idx then record s { health = set s.health idx ok } else s

  -- `server_selector_report_tcp_failure`
  unfoldable pub report_tcp_failure : Selector D → ℕ → Selector D
  report_tcp_failure s server_idx =
      if leb s.server_count server_idx
      then s
      else update_best (mark_failed s server_idx) (some server_idx) false

  -- `server_selector_report_tcp_success`
  unfoldable pub report_tcp_success : Selector D → ℕ → ℕ → Selector D
  report_tcp_success s server_idx epoch =
      if leb s.server_count server_idx
      then s
      else if epoch == attempt_epoch s server_idx
      then update_best (mark_ok s server_idx epoch) none false
      else s

  -- The locked part of `ss_record_probe`, by the sample's error
  unfoldable pub judge : Selector D → ℕ → ℕ → Bool → Selector D
  judge s idx epoch true = update_best (mark_failed s idx) (some idx) false
  judge s idx epoch false = update_best (mark_ok s idx epoch) none false

  -- `ss_record_probe`
  unfoldable pub record_probe : Double D → Selector D → ℕ → Sample D → ℕ → Selector D
  record_probe double s idx sample epoch =
      let fresh =
        push_sample double (get_or s.windows idx (record { samples = []; head = 0; count = 0 }))
          sample in
      let scored = record s {
        windows = set s.windows idx fresh;
        scores = set s.scores idx (compute_score double fresh sample sample.ts);
      } in
      judge scored idx epoch sample.errored

  -- `ss_probe_done`; `ss_probe_skip` is the same behind a log line.
  unfoldable pub probe_done : Selector D → Selector D
  probe_done s =
      let left = decrement s.probes_remaining in
      let counted = record s { probes_remaining = left } in
      if is_zero left then update_best counted none true else counted

  -- The start of a round: a round that is still running is not started again.
  unfoldable pub start_round : Selector D → Selector D
  start_round s =
      if is_positive s.probes_remaining
      then s
      else record s { probes_remaining = pos s.server_count }

  unfoldable pub reset_window : Window D → Window D
  reset_window w = record w { head = 0; count = 0 }

  unfoldable pub reset_windows : ℕ → List (Window D) → List (Window D)
  reset_windows zero l = l
  reset_windows (suc n) [] = []
  reset_windows (suc n) (w ∷ l) = reset_window w ∷ reset_windows n l

  -- `server_selector_init`, for one of the two selectors
  unfoldable pub server_selector_init : Selector D → Selector D
  server_selector_init s = record s {
    best_idx = 0;
    health = repeat max_servers unknown;
    failure_epoch = repeat max_servers 0;
    scores = reset_scores s.server_count s.scores;
    windows = reset_windows s.server_count s.windows;
    probes_remaining = pos 0;
  }
