-- ===== src/Idempotency/Tests.antt =====
-- The in-memory store at concrete keys, and the file store beside it.
mod Codec
mod Failures
use cubiczan_resilience.Base.{ℕ, ◌≡◌, refl, String, true, false, some, List, [], ◌∷◌}
use cubiczan_resilience.Text.{Text}
use cubiczan_resilience.Dict.{Dict, lookup, insert, contains}
use cubiczan_resilience.Atomic.{Files, done, atomic_write}
use cubiczan_resilience.Idempotency.{mark_done, clear}
use cubiczan_resilience.Idempotency.Protocol.{Call, ask_done, ask_result, mark, answers}
use cubiczan_resilience.Idempotency.Protocol.Stores.{memory, file, file-memory}
use cubiczan_resilience.Idempotency.Claims.{marks}
use cubiczan_resilience.Idempotency.Tests.Codec.{loads_one, store_files, no_fault}

abbrev paid : Dict ℕ
paid = ("order-1", 10) ∷ []

abbrev duplicates : List (String × ℕ)
duplicates = ("order-2", 20) ∷ ("order-1", 11) ∷ ("order-2", 21) ∷ []

marked : marks duplicates paid ≡ ("order-1", 10) ∷ ("order-2", 20) ∷ []
unfolding marks mark_done contains lookup insert
marked = refl

cleared : clear paid ≡ []
unfolding clear
cleared = refl

-- The text of a dict is its numbers.
abbrev numbers : Dict ℕ → Text
numbers [] = []
numbers ((_, n) ∷ d) = n ∷ numbers d

writes_done :
    (bs : List ℕ) (fs : Files)
    → (atomic_write no_fault true false "tmp1" "store" bs fs).result ≡ done
unfolding atomic_write
writes_done bs fs = refl

abbrev asked : List (Call ℕ)
asked = ask_done "order-2" ∷ mark "order-2" 20 ∷ mark "order-1" 11 ∷ ask_result "order-1" ∷ []

file-memory_example :
    answers
      (file
        (λ d. some (numbers d))
        loads_one
        (λ t. t)
        some
        no_fault
        "tmp1"
        "store"
        (λ d. (numbers d, refl))
        writes_done)
      asked
      (paid, store_files)
    ≡ answers memory asked paid
file-memory_example =
    file-memory (λ d. some (numbers d)) loads_one (λ t. t) some no_fault "tmp1" "store"
      (λ d. (numbers d, refl)) writes_done asked paid store_files
