-- ===== src/Atomic.antt =====
-- `atomic_write` of python/src/cubiczan_resilience/atomic.py, on the files of the destination's
-- directory. Which system calls fail, and how much a failing write has written, is the argument
-- `faults`; the name that `mkstemp` makes is the argument `tmp`.
pub mod Crash
mod Tests
use cubiczan_resilience.Base.{take, ℕ, String, Bool, List, [], ◌∷◌, if◌then◌else◌}
use cubiczan_resilience.Dict.{Dict, insert, erase}

abbrev pub Bytes : Type 0
Bytes = List ℕ

abbrev pub Files : Type 0
Files = Dict Bytes

pub data Unlink : Type 0 where
  gone missing forbidden : Unlink

pub record Faults : Type 0 where
  pub mkdir : Bool
  pub encode : Bool
  pub mkstemp : Bool
  pub write : Bool
  pub written : ℕ
  pub fsync : Bool
  pub chmod : Bool
  pub replace : Bool
  pub unlink : Unlink

-- The call that raised.
pub data Step : Type 0 where
  at_mkdir at_encode at_mkstemp at_write at_fsync at_chmod at_replace at_unlink : Step

pub data Result : Type 0 where
  done : Result
  raised : Step → Result

-- The result, the files when it returns or raises, and the files between its system calls, which
-- a crash would leave.
pub record Run : Type 0 where
  pub result : Result
  pub files : Files
  pub trace : List Files

-- The `except` block: the temporary file is unlinked, and the exception goes on.
pub unlinked : Unlink → String → Step → Files → List Files → Run
unlinked gone tmp e fs trace = record {
  result = raised e;
  files = erase tmp fs;
  trace = erase tmp fs ∷ trace;
}
unlinked missing tmp e fs trace = record { result = raised e; files = fs; trace = trace }
unlinked forbidden tmp e fs trace = record { result = raised at_unlink; files = fs; trace = trace }

pub cleanup : Faults → String → Step → Files → List Files → Run
unfolding unlinked
cleanup faults = unlinked faults.unlink

-- `os.replace`, and what stands before it where the options ask for it.
pub finish : Faults → String → String → Bytes → Files → List Files → Run
unfolding cleanup
finish faults tmp dest payload fs trace =
    if faults.replace
    then cleanup faults tmp at_replace fs trace
    else (let fs' = insert dest payload (erase tmp fs) in
        record { result = done; files = fs'; trace = fs' ∷ trace })

pub set_mode : Faults → Bool → String → String → Bytes → Files → List Files → Run
unfolding finish
set_mode faults has_mode tmp dest payload fs trace =
    if has_mode
    then (if faults.chmod
        then cleanup faults tmp at_chmod fs trace
        else finish faults tmp dest payload fs trace)
    else finish faults tmp dest payload fs trace

pub sync : Faults → Bool → Bool → String → String → Bytes → Files → List Files → Run
unfolding set_mode
sync faults fsync has_mode tmp dest payload fs trace =
    if fsync
    then (if faults.fsync
        then cleanup faults tmp at_fsync fs trace
        else set_mode faults has_mode tmp dest payload fs trace)
    else set_mode faults has_mode tmp dest payload fs trace

-- The `try` block, once the empty temporary file is there.
pub fill : Faults → Bool → Bool → String → String → Bytes → Files → List Files → Run
unfolding sync
fill faults fsync has_mode tmp dest payload fs trace =
    let partial = insert tmp (take faults.written payload) fs in
    let full = insert tmp payload fs in
    if faults.write
    then cleanup faults tmp at_write partial (partial ∷ trace)
    else sync faults fsync has_mode tmp dest payload full (full ∷ partial ∷ trace)

unfoldable pub atomic_write : Faults → Bool → Bool → String → String → Bytes → Files → Run
unfolding fill
atomic_write faults fsync has_mode tmp dest payload fs =
    if faults.mkdir
    then record { result = raised at_mkdir; files = fs; trace = fs ∷ [] }
    else if faults.encode
    then record { result = raised at_encode; files = fs; trace = fs ∷ [] }
    else if faults.mkstemp
    then record { result = raised at_mkstemp; files = fs; trace = fs ∷ [] }
    else (let empty = insert tmp [] fs in
        fill faults fsync has_mode tmp dest payload empty (empty ∷ fs ∷ []))
