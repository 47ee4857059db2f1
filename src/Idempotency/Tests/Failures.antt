-- ===== src/Idempotency/Tests/Failures.antt =====
-- The file store with a small codec, through failures and restarts.
use cubiczan_resilience.Base.{ℕ, ◌≤◌, ◌≡◌, ◌≢◌, refl, true, false, some, List, [], ◌∷◌, arith}
use cubiczan_resilience.Dict.{Dict, lookup, insert, erase, contains}
use cubiczan_resilience.Atomic.{Files, atomic_write}
use cubiczan_resilience.Idempotency.{
  Reply, returned, parsed, read, load, write_text, flush, mark_done_file,
}
use cubiczan_resilience.Idempotency.Restarts.{Event, call, restart, wins_file, wins_file-once}
use cubiczan_resilience.Idempotency.Durable.{
  IsLost, Marked, mark_done_file-Marked, mark_done_file-IsLost,
}
use cubiczan_resilience.Idempotency.Tests.Codec.{
  dumps_one, loads_one, one-Reads, store_files, no_fault, read_only,
}

mark_done_file-Marked_example :
    Marked dumps_one loads_one
      (λ t. t)
      some
      (λ n. n)
      one-Reads
      "store"
      "tmp1"
      refl
      "k"
      5
      []
      store_files
      (mark_done_file dumps_one loads_one
        (λ t. t)
        some
        no_fault
        "tmp1"
        "store"
        "k"
        5
        []
        store_files)
mark_done_file-Marked_example =
    mark_done_file-Marked dumps_one loads_one (λ t. t) some (λ n. n) one-Reads "store" "tmp1" refl
      no_fault "k" 5 [] store_files

-- What becomes of the key `k` when the directory takes no file.
abbrev refused : Reply × Dict ℕ × Files × List Files
refused =
    mark_done_file dumps_one loads_one (λ t. t) some read_only "tmp1" "store" "k" 5 [] store_files

none_done : contains {V = ℕ} "k" [] ≡ false
unfolding contains lookup
none_done = refl

refused-raises : refused.0 ≢ returned true
unfolding mark_done_file flush write_text atomic_write contains lookup insert
refused-raises h = ground arith

mark_done_file-IsLost_example :
    (mark_done_file dumps_one loads_one
        (λ t. t)
        some
        no_fault
        "tmp2"
        "store"
        "k"
        6
        refused.1
        refused.2
      ≡ (returned false, refused.1, refused.2, refused.2 ∷ []))
    × IsLost dumps_one loads_one
        (λ t. t)
        some
        (λ n. n)
        one-Reads
        "store"
        "tmp1"
        refl
        store_files
        refused.2
mark_done_file-IsLost_example =
    mark_done_file-IsLost dumps_one loads_one (λ t. t) some (λ n. n) one-Reads "store" "tmp1" refl
      read_only no_fault "tmp2" "k" 5 6 [] store_files none_done refused-raises

-- The directory takes no file, then the process ends; then the key is done, and again after another
-- end.
abbrev troubled : List (Event ℕ "store")
troubled =
    call read_only "tmp1" refl "k" 5
    ∷ restart
    ∷ call no_fault "tmp2" refl "k" 6
    ∷ call no_fault "tmp3" refl "k" 7
    ∷ restart
    ∷ call no_fault "tmp4" refl "k" 8
    ∷ []

wins_file-troubled :
    wins_file dumps_one loads_one
      (λ t. t)
      some
      (λ n. n)
      one-Reads
      "store"
      "k"
      troubled
      []
      store_files
    ≡ 1
unfolding wins_file mark_done_file load read parsed flush write_text atomic_write contains lookup
    insert erase
wins_file-troubled = refl

wins_file-once_example :
    wins_file dumps_one loads_one
      (λ t. t)
      some
      (λ n. n)
      one-Reads
      "store"
      "k"
      troubled
      []
      store_files
    ≤ 1
wins_file-once_example =
    wins_file-once dumps_one loads_one (λ t. t) some (λ n. n) one-Reads "store" "k" troubled []
      store_files
