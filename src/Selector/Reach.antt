-- ===== src/Selector/Reach.antt =====
-- src/server_selector.c: a selector under any sequence of reports, probe results and rounds.
use tproxy2ss.Base.{
  ℕ, zero, suc, ◌≤◌, ◌<◌, ◌≡◌, sym, ◌∙◌, arith, Bool, true, false, Option, none, some, List, [],
  ◌∷◌, length, get_or, set, ltb, leb, ◌==◌, Bool-cases, ltb→lt, length-set, inl, inr,
}
use mathlib.Core.Path.{subst}
use tproxy2ss.Base.Number.{ℤ, pos}
use tproxy2ss.Selector.Score.{Double, Sample, Window, window_slots, push_sample}
use tproxy2ss.Selector.Defs.{
  Selector, max_servers, update_best, attempt_epoch, mark_failed, mark_ok, judge,
  report_tcp_failure, report_tcp_success, record_probe, probe_done, start_round, decrement, is_zero,
  is_positive, ok, failed,
}
use tproxy2ss.Selector.Best.{update_best-index}

module _ {D : Type 0} where
  -- A window within its array
  pub record IsWindow (w : Window D) : Type 0 where
    pub size : length w.samples ≡ window_slots
    pub head_in : w.head < window_slots
    pub count_in : w.count ≤ window_slots

  abbrev pub AllWindows : List (Window D) → Type 0
  AllWindows [] = Unit
  AllWindows (w ∷ l) = IsWindow w × AllWindows l

  -- Every array has its size, and the best index is the index of a server.
  pub record IsSound (s : Selector D) : Type 0 where
    pub best_in : s.best_idx < s.server_count
    pub servers : s.server_count ≤ max_servers
    pub health_size : length s.health ≡ max_servers
    pub epoch_size : length s.failure_epoch ≡ max_servers
    pub windows_size : length s.windows ≡ max_servers
    pub in_windows : AllWindows s.windows

  AllWindows-set :
      (l : List (Window D)) (i : ℕ) (w : Window D)
      → AllWindows l
      → IsWindow w
      → AllWindows (set l i w)
  AllWindows-set [] i w a v = tt
  AllWindows-set (x ∷ l) zero w a v = (v, a.1)
  AllWindows-set (x ∷ l) (suc i) w a v = (a.0, AllWindows-set l i w a.1 v)

  AllWindows-get :
      (l : List (Window D)) (i : ℕ) (d : Window D)
      → AllWindows l
      → i < length l
      → IsWindow (get_or l i d)
  AllWindows-get [] i d a h = absurd (omega arith)
  AllWindows-get (x ∷ l) zero d a h = a.0
  AllWindows-get (x ∷ l) (suc i) d a h = AllWindows-get l i d a.1 (omega arith)

  push_sample-IsWindow :
      (double : Double D) (w : Window D) (x : Sample D)
      → IsWindow w
      → IsWindow (push_sample double w x)
  unfolding push_sample
  push_sample-IsWindow double w x v = record {
    size = length-set w.samples w.head x ∙ v.size;
    head_in = omega arith;
    count_in = elim (Bool-cases (ltb w.count window_slots)) [
      | inl e ↦ rw e (omega (arith, ltb→lt w.count window_slots e))
      | inr e ↦ rw e v.count_in
    ];
  }

  update_best-IsSound :
      (s : Selector D) (f : Option ℕ) (a : Bool) → IsSound s → IsSound (update_best s f a)
  update_best-IsSound s f a v =
      let (b, h, e) = update_best-index s f a v.best_in in
      subst IsSound (sym e) (record {
        best_in = h;
        servers = v.servers;
        health_size = v.health_size;
        epoch_size = v.epoch_size;
        windows_size = v.windows_size;
        in_windows = v.in_windows;
      })

  mark_failed-IsSound : (s : Selector D) (i : ℕ) → IsSound s → IsSound (mark_failed s i)
  unfolding mark_failed
  mark_failed-IsSound s i v = record {
    best_in = v.best_in;
    servers = v.servers;
    health_size = length-set s.health i failed ∙ v.health_size;
    epoch_size = length-set s.failure_epoch i _ ∙ v.epoch_size;
    windows_size = v.windows_size;
    in_windows = v.in_windows;
  }

  mark_ok-IsSound : (s : Selector D) (i e : ℕ) → IsSound s → IsSound (mark_ok s i e)
  unfolding mark_ok
  mark_ok-IsSound s i e v = elim (Bool-cases (e == attempt_epoch s i)) [
    | inr n ↦ rw n v
    | inl y ↦ rw y (record {
      best_in = v.best_in;
      servers = v.servers;
      health_size = length-set s.health i ok ∙ v.health_size;
      epoch_size = v.epoch_size;
      windows_size = v.windows_size;
      in_windows = v.in_windows;
    })
  ]

  failure-IsSound : (s : Selector D) (i : ℕ) → IsSound s → IsSound (report_tcp_failure s i)
  unfolding report_tcp_failure
  failure-IsSound s i v = elim (Bool-cases (leb s.server_count i)) [
    | inl e ↦ rw e v
    | inr e ↦
        rw e (update_best-IsSound (mark_failed s i) (some i) false (mark_failed-IsSound s i v))
  ]

  success-IsSound : (s : Selector D) (i e : ℕ) → IsSound s → IsSound (report_tcp_success s i e)
  unfolding report_tcp_success
  success-IsSound s i e v = elim (Bool-cases (leb s.server_count i)) [
    | inl out ↦ rw out v
    | inr inside ↦ elim (Bool-cases (e == attempt_epoch s i)) [
      | inr n ↦ rw (inside, n) v
      | inl y ↦
          rw (inside, y) (update_best-IsSound (mark_ok s i e) none false (mark_ok-IsSound s i e v))
    ]
  ]

  scored-IsSound :
      (double : Double D) (s : Selector D) (i score : ℕ) (x : Sample D)
      → i < s.server_count
      → IsSound s
      → IsSound (record s {
        windows = set s.windows i (
            push_sample double
              (get_or s.windows i (record { samples = []; head = 0; count = 0 }))
              x);
        scores = set s.scores i score;
      })
  scored-IsSound double s i score x h v = record {
    best_in = v.best_in;
    servers = v.servers;
    health_size = v.health_size;
    epoch_size = v.epoch_size;
    windows_size = length-set s.windows i _ ∙ v.windows_size;
    in_windows = AllWindows-set s.windows i _ v.in_windows (
        push_sample-IsWindow double _ x (
          AllWindows-get s.windows i _ v.in_windows (omega (arith, h, v.servers, v.windows_size))));
  }

  judge-IsSound :
      (s : Selector D) (i epoch : ℕ) (errored : Bool)
      → IsSound s
      → IsSound (judge s i epoch errored)
  unfolding judge
  judge-IsSound s i epoch true v = update_best-IsSound _ (some i) false (mark_failed-IsSound s i v)
  judge-IsSound s i epoch false v = update_best-IsSound _ none false (mark_ok-IsSound s i epoch v)

  probe-IsSound :
      (double : Double D) (s : Selector D) (i epoch : ℕ) (x : Sample D)
      → i < s.server_count
      → IsSound s
      → IsSound (record_probe double s i x epoch)
  unfolding record_probe
  probe-IsSound double s i epoch x h v =
      judge-IsSound _ i epoch x.errored (scored-IsSound double s i _ x h v)

  counted-IsSound :
      (s : Selector D) (n : ℤ) → IsSound s → IsSound (record s { probes_remaining = n })
  counted-IsSound s n v = record {
    best_in = v.best_in;
    servers = v.servers;
    health_size = v.health_size;
    epoch_size = v.epoch_size;
    windows_size = v.windows_size;
    in_windows = v.in_windows;
  }

  done-IsSound : (s : Selector D) → IsSound s → IsSound (probe_done s)
  unfolding probe_done
  done-IsSound s v =
      let sound = counted-IsSound s (decrement s.probes_remaining) v in
      elim (Bool-cases (is_zero (decrement s.probes_remaining))) [
        | inl e ↦ rw e (update_best-IsSound _ none true sound)
        | inr e ↦ rw e sound
      ]

  round-IsSound : (s : Selector D) → IsSound s → IsSound (start_round s)
  unfolding start_round
  round-IsSound s v = elim (Bool-cases (is_positive s.probes_remaining)) [
    | inl e ↦ rw e v
    | inr e ↦ rw e (counted-IsSound s (pos s.server_count) v)
  ]

  -- One report, probe result or round. A probe is of a server; a report may name any number.
  pub data Step (double : Double D) : Selector D → Selector D → Type 0 where
    failure : (s : Selector D) (i : ℕ) → Step double s (report_tcp_failure s i)
    success : (s : Selector D) (i epoch : ℕ) → Step double s (report_tcp_success s i epoch)
    probe :
        (s : Selector D) (i epoch : ℕ) (x : Sample D)
        → i < s.server_count
        → Step double s (record_probe double s i x epoch)
    done : (s : Selector D) → Step double s (probe_done s)
    round : (s : Selector D) → Step double s (start_round s)

  pub data Reach (double : Double D) (s : Selector D) : Selector D → Type 0 where
    here : Reach double s s
    after : {t u : Selector D} → Reach double s t → Step double t u → Reach double s u

  Step-IsSound : (double : Double D) {s t : Selector D} → Step double s t → IsSound s → IsSound t
  Step-IsSound double (failure s i) v = failure-IsSound s i v
  Step-IsSound double (success s i e) v = success-IsSound s i e v
  Step-IsSound double (probe s i e x h) v = probe-IsSound double s i e x h v
  Step-IsSound double (done s) v = done-IsSound s v
  Step-IsSound double (round s) v = round-IsSound s v

  -- From a well-formed selector every sequence of reports, probe results and rounds leads to a
  -- well-formed one: the best index names a server, and every window stays within its array.
  pub Selector-Reach-IsSound :
      (double : Double D) (s t : Selector D) → Reach double s t → IsSound s → IsSound t
  Selector-Reach-IsSound double s t here v = v
  Selector-Reach-IsSound double s t (after r step) v =
      Step-IsSound double step (Selector-Reach-IsSound double s _ r v)
