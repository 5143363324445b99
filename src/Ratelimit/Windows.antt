-- ===== src/Ratelimit/Windows.antt =====
-- The limiter against a log that forgets nothing.
use railbook.Base.{
  ℕ, ◌+◌, ◌≤◌, ◌≡◌, refl, Bool, false, not, ◌&&◌, none, some, List, [], ◌∷◌, ◌++◌, arith, inl, inr,
  Option-cases, ◌==◌, ltb,
}
use railbook.Base.Rows.{length, select, any_row, count_rows, All}
use railbook.Base.Rows.Selects.{length_more}
use railbook.Models.{seconds}
use railbook.Redis.{Key, same_key, same_key_self}
use railbook.Redis.SortedSets.{
  zremrangebyscore, zadd, zcard, expire, Scores, alive, in_range, Server, IsUp,
}
use railbook.Ratelimit.{window_start, pipe, of_count, check}

-- Whether an attempt at `u` counts at time `t`.
abbrev pub recent : (window t u : ℕ) → Bool
recent window t u = ltb t (u + window)

select_same {ℓ} :
    {A : Type ℓ} (p q : A → Bool) (xs : List A) → ((x : A) → p x ≡ q x) → select p xs ≡ select q xs
select_same p q [] h = refl
select_same p q (x ∷ xs) h = ground (arith, h x, select_same p q xs h)

kept_as_recent :
    (ws now u : ℕ) → not (in_range 0 (window_start now ws) u) ≡ recent (seconds ws) now u
kept_as_recent ws now u = ground arith

-- What is alive stays so at the same time, whatever its scores become.
alive_again :
    (now : ℕ) (v : Scores) (ys : List ℕ)
    → alive now (record (alive now v) { scores = ys }) ≡ record (alive now v) { scores = ys }
alive_again now v ys = elim (Option-cases v.deadline) [
  | inl e ↦ rw (e) (ground (arith, e))
  | inr (d, e) ↦ ground (arith, e)
]

module _ (r : Server) (up : IsUp r) (k : Key) (limit ws now : ℕ) (s : r.State) where
  abbrev s₁ : r.State
  s₁ = (r.step now (zremrangebyscore k 0 (window_start now ws)) s).1

  abbrev s₂ : r.State
  s₂ = (r.step now (zadd k now) s₁).1

  abbrev s₃ : r.State
  s₃ = (r.step now (zcard k) s₂).1

  -- The earlier attempts that count.
  abbrev pub earlier : List ℕ
  earlier = select (recent (seconds ws) now) (alive now (r.view k s)).scores

  abbrev pub after : r.State
  after = (check r k limit ws now s).1

  pub view-other : (j : Key) → same_key k j ≡ false → r.view j after ≡ r.view j s
  unfolding check
  view-other j e = ground (
    arith,
    e,
    up now (pipe k ws now) s,
    r.view-step now (zremrangebyscore k 0 (window_start now ws)) j s,
    r.view-step now (zadd k now) j s₁,
    r.view-step now (zcard k) j s₂,
    r.view-step now (expire k ws) j s₃,
  )

  module _ (new : any_row (λ t. t == now) earlier ≡ false) where
    view_removed : r.view k s₁ ≡ record (alive now (r.view k s)) { scores = earlier }
    view_removed = ground (
      arith,
      same_key_self k,
      r.view-step now (zremrangebyscore k 0 (window_start now ws)) k s,
      select_same _ _ (alive now (r.view k s)).scores (kept_as_recent ws now),
    )

    view_added : r.view k s₂ ≡ record (alive now (r.view k s)) { scores = earlier ++ now ∷ [] }
    view_added = ground (
      arith,
      same_key_self k,
      new,
      r.view-step now (zadd k now) k s₁,
      view_removed,
      alive_again now (r.view k s) earlier,
    )

    view_counted : r.view k s₃ ≡ record (alive now (r.view k s)) { scores = earlier ++ now ∷ [] }
    view_counted = ground (
      arith,
      same_key_self k,
      r.view-step now (zcard k) k s₂,
      view_added,
      alive_again now (r.view k s) (earlier ++ now ∷ []),
    )

    pub view-check :
        r.view k after ≡ record { scores = earlier ++ now ∷ []; deadline = some (now + seconds ws) }
    unfolding check
    view-check = ground (
      arith,
      same_key_self k,
      up now (pipe k ws now) s,
      r.view-step now (expire k ws) k s₃,
      view_counted,
      alive_again now (r.view k s) (earlier ++ now ∷ []),
    )

    pub result-check : (check r k limit ws now s).0 ≡ of_count limit ws (length earlier + 1)
    unfolding check
    result-check = ground (
      arith,
      up now (pipe k ws now) s,
      r.reply_of now (zcard k) s₂,
      view_added,
      alive_again now (r.view k s) (earlier ++ now ∷ []),
      length_more earlier now,
    )

-- The attempts of everybody so far, each with its key and its time.
abbrev pub Log : Type 0
Log = List (Key × ℕ)

-- How many attempts of `k` count at `t`.
abbrev pub count_at : (window : ℕ) (k : Key) (t : ℕ) → Log → ℕ
count_at window k t log = count_rows (λ c. same_key c.0 k && recent window t c.1) log

abbrev pub EndsWithin : (window : ℕ) → Scores → Type 0
EndsWithin window v = elim v.deadline [
  | none ↦ v.scores ≡ []
  | some d ↦ All (λ u. u + window ≤ d) v.scores
]

-- What the server holds for the keys of a limiter agrees with the log, from `last` on.
pub record Tracks (r : Server) (ws : Key → ℕ) (log : Log) (last : ℕ) (s : r.State) : Type 0 where
  pub ends : (j : Key) → EndsWithin (seconds (ws j)) (r.view j s)
  pub past : (j : Key) → All (λ u. u ≤ last) (r.view j s).scores
  pub counts :
      (j : Key) (t : ℕ)
      → last ≤ t
      → count_rows (recent (seconds (ws j)) t) (r.view j s).scores
        ≡ count_at (seconds (ws j)) j t log
