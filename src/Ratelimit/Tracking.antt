-- ===== src/Ratelimit/Tracking.antt =====
-- Any sequence of attempts, against a log that forgets nothing.
use railbook.Base.{
  ℕ, ◌+◌, ◌≤◌, ◌<◌, ◌≡◌, refl, sym, ap, ◌∙◌, subst, Bool, false, Option, none, some, List, [], ◌∷◌,
  arith, inl, inr, Bool-cases, ◌==◌, ltb,
}
use railbook.Base.Rows.{length, select, any_row, count_rows, All}
use railbook.Base.Rows.Laws.{All-append, All-map}
use railbook.Base.Rows.Selects.{All_select, count_rows-append}
use railbook.Models.{seconds}
use railbook.Redis.{Key, same_key, same_key_self, eq_of_same}
use railbook.Redis.SortedSets.{Scores, alive, Server, IsUp}
use railbook.Ratelimit.{of_count, check}
use railbook.Ratelimit.Windows.{
  recent, earlier, view-other, view-check, result-check, Log, count_at, EndsWithin, Tracks,
}

length_of_select {ℓ} :
    {A : Type ℓ} (p : A → Bool) (xs : List A) → length (select p xs) ≡ count_rows p xs
length_of_select p [] = refl
length_of_select p (x ∷ xs) = ground (arith, length_of_select p xs)

module _ (window now t : ℕ) (before : now ≤ t) where
  none_recent :
      (d : ℕ) (xs : List ℕ)
      → d < now
      → All (λ u. u + window ≤ d) xs
      → count_rows (recent window t) xs ≡ 0
  none_recent d [] over h = refl
  none_recent d (x ∷ xs) over h = ground (arith, none_recent d xs over h.1)

  -- What has expired does not count any more.
  count_alive :
      (xs : List ℕ) (deadline : Option ℕ)
      → let v : Scores = record { scores = xs; deadline = deadline } in
        EndsWithin window v
        → count_rows (recent window t) (alive now v).scores ≡ count_rows (recent window t) xs
  count_alive xs none e = refl
  count_alive xs (some d) e = elim (Bool-cases (ltb d now)) [
    | inl over ↦ rw over (sym (none_recent d xs (ground (arith, over)) e))
    | inr going ↦ rw going refl
  ]

  count_kept :
      (xs : List ℕ)
      → count_rows (recent window t) (select (recent window now) xs)
        ≡ count_rows (recent window t) xs
  count_kept [] = refl
  count_kept (x ∷ xs) = ground (arith, count_kept xs)

All_alive :
    (P : ℕ → Type 0) (now : ℕ) (xs : List ℕ) (deadline : Option ℕ)
    → All P xs
    → All P (alive now (record { scores = xs; deadline = deadline })).scores
All_alive P now xs none h = h
All_alive P now xs (some d) h = elim (Bool-cases (ltb d now)) [
  | inl over ↦ rw over tt
  | inr going ↦ rw going h
]

not_yet :
    (last now : ℕ) (xs : List ℕ)
    → last < now
    → All (λ u. u ≤ last) xs
    → any_row (λ t. t == now) xs ≡ false
not_yet last now [] l h = refl
not_yet last now (x ∷ xs) l h = ground (arith, not_yet last now xs l h.1)

module _ (r : Server) (up : IsUp r) (limit ws : Key → ℕ) where
  module _ (log : Log) (last now : ℕ) (k : Key) (s : r.State) (t : Tracks r ws log last s)
      (later : last < now) where
    earlier_past : All (λ u. u ≤ last) (earlier r up k (limit k) (ws k) now s)
    earlier_past =
        All_select _ (λ u. u ≤ last) _
          (All_alive (λ u. u ≤ last) now (r.view k s).scores (r.view k s).deadline (t.past k))

    new : any_row (λ u. u == now) (earlier r up k (limit k) (ws k) now s) ≡ false
    new = not_yet last now _ later earlier_past

    count_earlier :
        (at : ℕ)
        → now ≤ at
        → count_rows (recent (seconds (ws k)) at) (earlier r up k (limit k) (ws k) now s)
          ≡ count_at (seconds (ws k)) k at log
    count_earlier at h =
        count_kept (seconds (ws k)) now at h (alive now (r.view k s)).scores
        ∙ count_alive (seconds (ws k)) now at h (r.view k s).scores (r.view k s).deadline (t.ends k)
        ∙ t.counts k at (omega (arith, later, h))

    -- An attempt that is answered is one more in the log.
    pub result-log :
        (check r k (limit k) (ws k) now s).0
        ≡ of_count (limit k) (ws k) (count_at (seconds (ws k)) k now log + 1)
    result-log =
        result-check r up k (limit k) (ws k) now s new
        ∙ ap (λ n. of_count (limit k) (ws k) (n + 1))
            (length_of_select (recent (seconds (ws k)) now) (alive now (r.view k s)).scores
              ∙ sym (
                  count_kept (seconds (ws k)) now now (omega arith) (alive now (r.view k s)).scores)
              ∙ count_earlier now (omega arith))

    -- What the log says of the attempt's own key, and of any other.
    by_key : (P : Key → Type 0) → P k → ((j : Key) → same_key k j ≡ false → P j) → (j : Key) → P j
    by_key P own other j = elim (Bool-cases (same_key k j)) [
      | inl e ↦ subst P (eq_of_same k j e) own
      | inr e ↦ other j e
    ]

    pub Tracks-check : Tracks r ws ((k, now) ∷ log) now (check r k (limit k) (ws k) now s).1
    Tracks-check = record {
      ends =
          by_key (λ j. EndsWithin (seconds (ws j)) (r.view j (check r k (limit k) (ws k) now s).1))
            (rw (view-check r up k (limit k) (ws k) now s new) (
              All-append (λ u. u + seconds (ws k) ≤ now + seconds (ws k)) _ now
                (All-map (λ u. u ≤ last) _ (λ u h. omega (arith, later, h)) _ earlier_past)
                (omega arith)))
            (λ j e. rw (view-other r up k (limit k) (ws k) now s j e) (t.ends j));
      past =
          by_key (λ j. All (λ u. u ≤ now) (r.view j (check r k (limit k) (ws k) now s).1).scores)
            (rw (view-check r up k (limit k) (ws k) now s new) (
              All-append (λ u. u ≤ now) _ now
                (All-map (λ u. u ≤ last) _ (λ u h. omega (arith, later, h)) _ earlier_past)
                (omega arith)))
            (λ j e.
              rw (view-other r up k (limit k) (ws k) now s j e)
                (All-map (λ u. u ≤ last) _ (λ u h. omega (arith, later, h)) _ (t.past j)));
      counts =
          by_key
            (λ j.
              (at : ℕ)
              → now ≤ at
              → count_rows (recent (seconds (ws j)) at)
                  (r.view j (check r k (limit k) (ws k) now s).1).scores
                ≡ count_at (seconds (ws j)) j at ((k, now) ∷ log))
            (λ at h. rw (view-check r up k (limit k) (ws k) now s new) (
              ground (
                arith,
                same_key_self k,
                count_earlier at h,
                count_rows-append (recent (seconds (ws k)) at)
                    (earlier r up k (limit k) (ws k) now s) now,
              )))
            (λ j e at h.
              rw (view-other r up k (limit k) (ws k) now s j e)
                (ground (arith, e, t.counts j at (omega (arith, later, h)))));
    }
