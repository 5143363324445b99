-- ===== src/Tests/Ratelimit.antt =====
-- The theorems on the rate limits at concrete inputs, with a server in memory.
use railbook.Base.{
  ℕ, ◌≡◌, refl, ap, some, List, [], ◌∷◌, arith, inl, inr, Bool-cases, if◌then◌else◌,
}
use railbook.Models.{seconds}
use railbook.Redis.{Key, same_key, eq_of_same}
use railbook.Redis.SortedSets.{
  Command, Scores, nothing, alive, key_of, effect, all_steps, Server, IsUp,
}
use railbook.Ratelimit.{pass, Guard, booking, payment, run_guard, run_guards}
use railbook.Ratelimit.Limits.{headers_of, Increasing}
use railbook.Ratelimit.Bounds.{passes_after_pause}

abbrev pub Store : Type 0
Store = Key → Scores

abbrev pub run_command : ℕ → Command → Store → ℕ × Store
run_command now c s =
    let (reply, v) = effect now c (alive now (s (key_of c))) in
    (reply, λ j. if same_key (key_of c) j then v else s j)

pub run_command-view :
    (now : ℕ) (c : Command) (j : Key) (s : Store)
    → (run_command now c s).1 j
      ≡ (if same_key (key_of c) j then (effect now c (alive now (s j))).1 else s j)
run_command-view now c j s = elim (Bool-cases (same_key (key_of c) j)) [
  | inl e ↦ rw e (ap (λ k. (effect now c (alive now (s k))).1) (eq_of_same (key_of c) j e))
  | inr e ↦ rw e refl
]

abbrev pub in_memory : Server
in_memory = record {
  State = Store;
  view = λ k s. s k;
  step = run_command;
  execute = λ now cs s. let (replies, s') = all_steps run_command now cs s in (some replies, s');
  reply_of = λ now c s. refl;
  view-step = run_command-view;
}

pub is_up : IsUp in_memory
is_up now cs s = refl

abbrev pub empty_store : Store
empty_store j = nothing

-- Six booking requests of user 1 within a second, and a payment request.
abbrev burst : List (Guard × ℕ)
burst =
    (booking 1, 10)
    ∷ (booking 1, 20)
    ∷ (booking 1, 30)
    ∷ (payment 1, 35)
    ∷ (booking 1, 40)
    ∷ (booking 1, 50)
    ∷ (booking 1, 60)
    ∷ []

burst-Increasing : Increasing 0 burst
burst-Increasing = (
  omega arith,
  (omega arith, (omega arith, (omega arith, (omega arith, (omega arith, (omega arith, tt)))))),
)

passes_after_pause_example :
    (run_guard in_memory
      (booking 1)
      (seconds 61)
      (run_guards in_memory burst (some empty_store)).1).0
    ≡ pass (some (headers_of (booking 1) 4))
passes_after_pause_example =
    passes_after_pause in_memory is_up burst empty_store (booking 1) (seconds 61) (λ j. refl)
      burst-Increasing (omega arith) (refl, (refl, (refl, (refl, (refl, (refl, (refl, tt)))))))
