-- ===== src/Ratelimit/Bounds.antt =====
-- How many requests pass in a window, when a client passes again, and what happens without Redis.
use railbook.Base.{
  ℕ, ◌+◌, ◌-◌, ◌≤◌, ◌<◌, ◌≡◌, refl, ap, ◌∙◌, Bool, false, ◌&&◌, none, some, List, [], ◌∷◌, arith,
  inl, inr, Bool-cases, ltb, leb, if◌then◌else◌,
}
use railbook.Base.Rows.{count_rows, All}
use railbook.Models.{seconds}
use railbook.Redis.{Key, same_key, eq_of_same}
use railbook.Redis.SortedSets.{nothing, Server, IsUp}
use railbook.Ratelimit.{
  Verdict, pass, passes, of_count, pipe, check, Guard, booking, payment, auth, run_guard,
  run_guards, rate_limit_booking, rate_limit_payment, rate_limit_auth,
}
use railbook.Ratelimit.Windows.{recent, Log, count_at, Tracks}
use railbook.Ratelimit.Tracking.{result-log, Tracks-check}
use railbook.Ratelimit.Limits.{
  guard_key, limit_of, window_of, verdict_of, headers_of, judge_after, ideal, Increasing, guard_lem,
  run_guards_refines, no_attempts-Tracks,
}

-- Whether an attempt of client `k` lies in the window that starts at `a`.
abbrev pub in_window : (a : ℕ) (k : Key) → Key × ℕ → Bool
in_window a k c = same_key c.0 k && (leb a c.1 && ltb c.1 (a + seconds (window_of k)))

-- How many requests of client `k` in the window that starts at `a` have passed.
abbrev pub passed_in : (a : ℕ) (k : Key) → List (Guard × ℕ) → List Verdict → ℕ
passed_in a k ((g, now) ∷ rest) (v ∷ vs) =
    (if in_window a k (guard_key g, now) && passes v then 1 else 0) + passed_in a k rest vs
passed_in a k _ _ = 0

passes-judge_after :
    (g : Guard) (earlier : ℕ)
    → passes (judge_after g earlier) ≡ ltb earlier (limit_of (guard_key g))
passes-judge_after (booking u) earlier = ground arith
passes-judge_after (payment u) earlier = ground arith
passes-judge_after (auth client) earlier = ground arith

module _ (a : ℕ) (k : Key) where
  window_counts :
      (now : ℕ) (log : Log)
      → now < a + seconds (window_of k)
      → count_rows (in_window a k) log ≤ count_at (seconds (window_of k)) k now log
  window_counts now [] h = omega arith
  window_counts now (c ∷ log) h = ground (arith, window_counts now log h)

  ideal_bound :
      (log : Log) (requests : List (Guard × ℕ))
      → passed_in a k requests (ideal log requests) ≤ limit_of k - count_rows (in_window a k) log
  unfolding ideal
  ideal_bound log [] = omega arith
  ideal_bound log ((g, now) ∷ rest) = elim (Bool-cases (in_window a k (guard_key g, now))) [
    | inl inside ↦
        let e = eq_of_same (guard_key g) k (ground (arith, inside)) in
        ground (
          arith,
          inside,
          ap limit_of e,
          ap (λ j. count_at (seconds (window_of j)) j now log) e,
          passes-judge_after g (count_at (seconds (window_of (guard_key g))) (guard_key g) now log),
          window_counts now log (ground (arith, inside)),
          ideal_bound ((guard_key g, now) ∷ log) rest,
        )
    | inr outside ↦ ground (arith, outside, ideal_bound ((guard_key g, now) ∷ log) rest)
  ]

module _ (r : Server) (up : IsUp r) where
  -- Over any sequence of requests at increasing times, on a Redis that answers and holds nothing at
  -- first, of the requests of one client that fall into one window no more pass than its limit: five
  -- bookings and three payments of a user in 60 seconds, ten account requests of an address in 300,
  -- wherever the window starts.
  pub passed_in_window_bounded :
      (requests : List (Guard × ℕ)) (s : r.State) (a : ℕ) (k : Key)
      → ((j : Key) → r.view j s ≡ nothing)
      → Increasing 0 requests
      → passed_in a k requests (run_guards r requests (some s)).0 ≤ limit_of k
  passed_in_window_bounded requests s a k empty inc =
      rw (run_guards_refines r up requests s empty inc) (omega (arith, ideal_bound a k [] requests))

  abbrev pub log_after : Log → List (Guard × ℕ) → Log
  log_after log [] = log
  log_after log ((g, now) ∷ rest) = log_after ((guard_key g, now) ∷ log) rest

  abbrev pub last_after : ℕ → List (Guard × ℕ) → ℕ
  last_after last [] = last
  last_after last ((g, now) ∷ rest) = last_after now rest

  run_guards-Tracks :
      (log : Log) (last : ℕ) (s : r.State) (requests : List (Guard × ℕ))
      → Tracks r window_of log last s
      → Increasing last requests
      → (s' : r.State) × ((run_guards r requests (some s)).1 ≡ some s')
        × Tracks r window_of (log_after log requests) (last_after last requests) s'
  unfolding run_guards
  run_guards-Tracks log last s [] t inc = (s, refl, t)
  run_guards-Tracks log last s ((g, now) ∷ rest) t inc = rw (guard_lem r up g now s) (
      run_guards-Tracks ((guard_key g, now) ∷ log) now _ rest
        (Tracks-check r up limit_of window_of log last now (guard_key g) s t inc.0) inc.1)

  -- A client that has paused for its window.
  abbrev pub Paused : Key → ℕ → Guard × ℕ → Type 0
  Paused k t c = (same_key (guard_key c.0) k && recent (seconds (window_of k)) t c.1) ≡ false

  quiet :
      (k : Key) (t : ℕ) (log : Log) (requests : List (Guard × ℕ))
      → All (Paused k t) requests
      → count_at (seconds (window_of k)) k t (log_after log requests)
        ≡ count_at (seconds (window_of k)) k t log
  quiet k t log [] h = refl
  quiet k t log ((g, now) ∷ rest) h =
      quiet k t ((guard_key g, now) ∷ log) rest h.1 ∙ ground (arith, h.0)

  first_passes :
      (g : Guard)
      → let k = guard_key g in
        verdict_of g (of_count (limit_of k) (window_of k) (0 + 1))
        ≡ pass (some (headers_of g (limit_of k - 1)))
  first_passes (booking u) = refl
  first_passes (payment u) = refl
  first_passes (auth client) = refl

  -- After any such sequence, refused requests included, a client that has made no attempt for the
  -- length of its window gets its next request through, with its whole limit but one remaining.
  pub passes_after_pause :
      (requests : List (Guard × ℕ)) (s : r.State) (g : Guard) (t : ℕ)
      → ((j : Key) → r.view j s ≡ nothing)
      → Increasing 0 requests
      → last_after 0 requests < t
      → All (Paused (guard_key g) t) requests
      → let k = guard_key g in
        (run_guard r g t (run_guards r requests (some s)).1).0
        ≡ pass (some (headers_of g (limit_of k - 1)))
  passes_after_pause requests s g t empty inc later paused =
      let k = guard_key g in
      let (s', ran, tracks) =
        run_guards-Tracks [] 0 s requests (no_attempts-Tracks r up s empty) inc in
      rw
        (
          ran,
          guard_lem r up g t s',
          result-log r up limit_of window_of (log_after [] requests) (last_after 0 requests) t k s'
              tracks later,
          quiet k t [] requests paused,
        )
        (first_passes g)

-- Without a limiter every request passes without headers, and where the pipeline raises every request
-- passes, with the whole limit remaining.
guards_fail_open :
    (r : Server) (g : Guard) (now : ℕ) (s : r.State)
    → (r.execute now (pipe (guard_key g) (window_of (guard_key g)) now) s).0 ≡ none
    → ((run_guard r g now none).0 ≡ pass none)
      × ((run_guard r g now (some s)).0 ≡ pass (some (headers_of g (limit_of (guard_key g)))))
unfolding run_guard rate_limit_booking rate_limit_payment rate_limit_auth check
guards_fail_open r (booking u) now s h = ground (arith, h)
guards_fail_open r (payment u) now s h = ground (arith, h)
guards_fail_open r (auth client) now s h = ground (arith, h)
