-- ===== src/Atomic/Tests.antt =====
-- `atomic_write` in a directory of two files, without a fault and with two of them.
use cubiczan_resilience.Base.{◌≡◌, refl, true, false, [], ◌∷◌}
use cubiczan_resilience.Dict.{insert, erase}
use cubiczan_resilience.Atomic.{
  Files, gone, forbidden, Faults, raised, at_unlink, unlinked, cleanup, finish, set_mode, sync,
  fill, atomic_write,
}
use cubiczan_resilience.Atomic.Crash.{Safe, atomic_write-Safe}

abbrev directory : Files
directory = ("state.json", 1 ∷ 2 ∷ []) ∷ ("notes", 7 ∷ []) ∷ []

abbrev no_fault : Faults
no_fault = record {
  mkdir = false;
  encode = false;
  mkstemp = false;
  write = false;
  written = 0;
  fsync = false;
  chmod = false;
  replace = false;
  unlink = gone;
}

abbrev no_replace : Faults
no_replace = record no_fault { replace = true }

abbrev stuck : Faults
stuck = record no_replace { unlink = forbidden }

written :
    (atomic_write no_fault true false "tmp1" "state.json" (3 ∷ 4 ∷ 5 ∷ []) directory).files
    ≡ ("state.json", 3 ∷ 4 ∷ 5 ∷ []) ∷ ("notes", 7 ∷ []) ∷ []
unfolding atomic_write fill sync set_mode finish cleanup unlinked insert erase
written = refl

not_replaced :
    (atomic_write no_replace true true "tmp1" "state.json" (3 ∷ []) directory).files ≡ directory
unfolding atomic_write fill sync set_mode finish cleanup unlinked insert erase
not_replaced = refl

stuck_raises :
    (atomic_write stuck true true "tmp1" "state.json" (3 ∷ []) directory).result ≡ raised at_unlink
unfolding atomic_write fill sync set_mode finish cleanup unlinked insert erase
stuck_raises = refl

atomic_write-Safe_example :
    Safe "tmp1" "state.json"
      (3 ∷ 4 ∷ 5 ∷ [])
      directory
      refl
      (atomic_write no_fault true false "tmp1" "state.json" (3 ∷ 4 ∷ 5 ∷ []) directory)
atomic_write-Safe_example =
    atomic_write-Safe "tmp1" "state.json" (3 ∷ 4 ∷ 5 ∷ []) directory refl no_fault true false
