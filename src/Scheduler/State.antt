-- ===== src/Scheduler/State.antt =====
-- crates/scheduler/src/lib.rs: the scheduler's memory and its files, and the monad of its operations.
use ferrum_atlas.Prelude.{ℕ, List, Bool, true, false, Option, some, Result, ok, err, ◌==◌}
use ferrum_atlas.Prelude.Text.{Text, text_eq}
use ferrum_atlas.Model.{JobRequest, JobRecord}
use ferrum_atlas.Scheduler.Config.{Error, io_failed}

-- `fences/<profile>.json` holds the identity that may publish for the profile.
abbrev pub Fences : Type 0
Fences = Text → Option Text

-- `jobs` is behind the mutex, which is `poisoned` after a panic; `journal` and `fences` are the files.
pub record Inner : Type 0 where
  pub jobs : List JobRecord
  pub stop : Bool
  pub poisoned : Bool
  pub journal : List JobRecord
  pub fences : Fences

-- A file is written aside, renamed into place, and its directory is synced: it can fail before the
-- rename or after it.
pub data WriteOutcome : Type 0 where
  written unchanged renamed_not_synced : WriteOutcome

-- What the machine answers during one call: the readings of the clock by their number, the lock of
-- `publication.lock` within its 100 ms, the two file writes, `/dev/urandom`, the serialiser.
pub record Io : Type 0 where
  pub stamp : ℕ → Text
  pub fence_free : Bool
  pub fence_write : WriteOutcome
  pub journal_write : WriteOutcome
  pub entropy : Option (List ℕ)
  pub request_bytes : JobRequest → Option ℕ

-- An operation changes the state, and returns a value or an error; what was written stays written.
abbrev pub M {ℓ} : Type ℓ → Type ℓ
M A = Inner → Result Error A × Inner

infixl 5 ◌>>=◌ ◌>>◌
abbrev pub ◌>>=◌ {ℓ κ} : {A : Type ℓ} {B : Type κ} → M A → (A → M B) → M B
◌>>=◌ m f s = let (r, s') = m s in elim r [ ok a ↦ f a s' | err e ↦ (err e, s') ]

abbrev pub ◌>>◌ {ℓ} : {B : Type ℓ} → M (Unit {0}) → M B → M B
m >> k = m >>= λ _. k

abbrev pub pure {ℓ} : {A : Type ℓ} → A → M A
pure a s = (ok a, s)

abbrev pub lift {ℓ} : {A : Type ℓ} → Result Error A → M A
lift r s = (r, s)

abbrev pub get : M Inner
get s = (ok s, s)

abbrev pub set_jobs : List JobRecord → M (Unit {0})
set_jobs jobs s = (ok tt, record s { jobs = jobs })

abbrev pub update_fence : Text → Text → Fences → Fences
update_fence profile id fences p = elim (p == profile) [ true ↦ some id | false ↦ fences p ]

unfoldable pub write_fence : WriteOutcome → Text → Text → M (Unit {0})
write_fence written profile id s = (ok tt, record s { fences = update_fence profile id s.fences })
write_fence unchanged profile id s = (err io_failed, s)
write_fence renamed_not_synced profile id s =
    (err io_failed, record s { fences = update_fence profile id s.fences })

unfoldable pub persist : WriteOutcome → List JobRecord → M (Unit {0})
persist written jobs s = (ok tt, record s { journal = jobs })
persist unchanged jobs s = (err io_failed, s)
persist renamed_not_synced jobs s = (err io_failed, record s { journal = jobs })

-- The end of `submit` and of `cancel`: the fence, the journal, and then the jobs in memory.
unfoldable pub commit : Io → Text → Text → List JobRecord → JobRecord → M JobRecord
unfolding write_fence persist
commit io profile fence updated job = do
  write_fence io.fence_write profile fence
  persist io.journal_write updated
  set_jobs updated
  pure job
