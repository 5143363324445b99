-- ===== src/Redis/SortedSets.antt =====
-- What the rate limits rely on of Redis: sorted sets, expiry, and pipelines run as transactions.
use railbook.Base.{
  ℕ, ◌+◌, ◌≡◌, Bool, false, not, ◌&&◌, Option, none, some, List, [], ◌∷◌, ◌++◌, ◌==◌, ltb, leb,
  if◌then◌else◌,
}
use railbook.Base.Rows.{length, select, any_row}
use railbook.Models.{seconds}
use railbook.Redis.{Key, same_key}

-- The commands of the backend's pipelines. A member of a set is the text of its own score. An upper
-- bound that is negative is `none`. Times are in microseconds, `expire` has whole seconds.
pub data Command : Type 0 where
  zremrangebyscore : Key → (from : ℕ) → (to : Option ℕ) → Command
  zadd : Key → (score : ℕ) → Command
  zcard : Key → Command
  expire : Key → (secs : ℕ) → Command

abbrev pub key_of : Command → Key
key_of (zremrangebyscore k from to) = k
key_of (zadd k score) = k
key_of (zcard k) = k
key_of (expire k secs) = k

-- The scores at a key, and when the key is dropped.
pub record Scores : Type 0 where
  pub scores : List ℕ
  pub deadline : Option ℕ

abbrev pub nothing : Scores
nothing = record { scores = []; deadline = none }

-- A key is gone after its deadline.
abbrev pub alive : ℕ → Scores → Scores
alive now v = elim v.deadline [ none ↦ v | some d ↦ if ltb d now then nothing else v ]

abbrev pub in_range : ℕ → Option ℕ → ℕ → Bool
in_range from none t = false
in_range from (some to) t = leb from t && leb t to

-- What a command replies and leaves at its key.
abbrev pub effect : ℕ → Command → Scores → ℕ × Scores
effect now (zremrangebyscore k from to) v = (
  length (select (in_range from to) v.scores),
  record v { scores = select (λ t. not (in_range from to t)) v.scores },
)
effect now (zadd k score) v =
    if any_row (λ t. t == score) v.scores
    then (0, v)
    else (1, record v { scores = v.scores ++ score ∷ [] })
effect now (zcard k) v = (length v.scores, v)
effect now (expire k secs) v = (1, record v { deadline = some (now + seconds secs) })

-- The commands of a pipeline, one after another.
abbrev pub all_steps :
    {State : Type 0} (step : ℕ → Command → State → ℕ × State) (now : ℕ)
    → List Command
    → State
    → List ℕ × State
all_steps step now [] s = ([], s)
all_steps step now (c ∷ cs) s =
    let (reply, s₁) = step now c s in
    let (replies, s₂) = all_steps step now cs s₁ in (reply ∷ replies, s₂)

-- A server: `view` is what it holds at a key, `step` one command, and `execute` a pipeline, which is
-- all of its commands in order, or raises.
pub record Server : Type 1 where
  pub State : Type 0
  pub view : Key → State → Scores
  pub step : (now : ℕ) → Command → State → ℕ × State
  pub execute : (now : ℕ) → List Command → State → Option (List ℕ) × State
  pub reply_of :
      (now : ℕ) (c : Command) (s : State)
      → (step now c s).0 ≡ (effect now c (alive now (view (key_of c) s))).0
  pub view-step :
      (now : ℕ) (c : Command) (j : Key) (s : State)
      → view j (step now c s).1
        ≡ (if same_key (key_of c) j then (effect now c (alive now (view j s))).1 else view j s)

-- The server answers every pipeline.
abbrev pub IsUp : Server → Type 0
IsUp r =
    (now : ℕ) (cs : List Command) (s : r.State)
    → r.execute now cs s ≡ (let (replies, s') = all_steps r.step now cs s in (some replies, s'))
