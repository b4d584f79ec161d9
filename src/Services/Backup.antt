-- ===== src/Services/Backup.antt =====
-- backend/app/services/backup_service.py, and the background coroutine of
-- backend/app/api/api_v1/endpoints/internal.py that runs it.
pub mod Url
pub mod RoundTrip
pub mod Daily
use bank_transaction_system.Base.{
  ℕ, String, Bool, true, false, Option, none, some, List, [], ◌∷◌, ◌++◌, str_eq, if◌then◌else◌,
}
use bank_transaction_system.Base.Int.{ℤ}
use bank_transaction_system.Base.Rows.{take}
use bank_transaction_system.Base.Text.{Text, codes}
use bank_transaction_system.Services.Backup.Url.{parse_db_url_for_pg_dump}

pub data BackupError : Type 0 where
  -- FileNotFoundError, ValueError
  file_not_found value_error : BackupError
  -- CalledProcessError, with its exit code and what `stderr` decodes to
  called_process : ℤ → Option Text → BackupError
  -- botocore's ClientError, with its code
  client_error : String → BackupError
  other_error : BackupError

pub record Backup : Type 0 where
  pub snapshot_id : Text
  pub status : Text

pub data Outcome : Type 0 where
  finished : Backup → Outcome
  raised : BackupError → Outcome

-- What `create_db_snapshot` gives: the status in its response, or an exception.
pub data Snapshot : Type 0 where
  created : Text → Snapshot
  refused : BackupError → Snapshot

-- The settings and the libraries: `date.today().isoformat()`, `os.makedirs`, `os.path.join`,
-- `subprocess.run` (an exception, if it raises one), RDS, `str.strip`, and `\d` of `re`.
pub record Host : Type 0 where
  pub environment : String
  pub database_url : Text
  pub rds_instance : Text
  pub today : Text
  pub makedirs : Text → Option BackupError
  pub path_join : Text → Text → Text
  pub run_command : List Text → Option BackupError
  pub create_db_snapshot : Text → Text → Snapshot
  pub strip : Text → Text
  pub is_digit : ℕ → Bool

abbrev pub backup_dir : Text
backup_dir = codes "db_backups"

abbrev pub snapshot_name : Host → Text
snapshot_name h = codes "daily-snapshot-" ++ h.today

abbrev pub file_name : Host → Text
file_name h = snapshot_name h ++ codes ".sql"

-- `subprocess.run(cmd, check=True)`, and what is returned after it
abbrev pub completed : Host → Option BackupError → Outcome
completed h (some e) = Outcome.raised e
completed h none =
    Outcome.finished (record { snapshot_id = file_name h; status = codes "completed" })

unfoldable pub dump : Host → Option (List Text) → Outcome
dump h none = Outcome.raised BackupError.value_error
dump h (some pg_args) =
    completed h
      (h.run_command (pg_args ++ (codes "-f" ∷ h.path_join backup_dir (file_name h) ∷ [])))

unfoldable pub run_development_backup : Host → Outcome
unfolding dump
run_development_backup h = elim (h.makedirs backup_dir) [
  | some e ↦ Outcome.raised e
  | none ↦ dump h (parse_db_url_for_pg_dump h.is_digit h.database_url)
]

-- `except botocore.exceptions.ClientError`
abbrev pub on_client_error : Host → BackupError → Outcome
on_client_error h (BackupError.client_error code) =
    if str_eq code "DBSnapshotAlreadyExists"
    then Outcome.finished
        (record { snapshot_id = snapshot_name h; status = codes "already_exists" })
    else Outcome.raised (BackupError.client_error code)
on_client_error h e = Outcome.raised e

abbrev pub snapshot_outcome : Host → Snapshot → Outcome
snapshot_outcome h (Snapshot.created status) =
    Outcome.finished (record { snapshot_id = snapshot_name h; status = status })
snapshot_outcome h (Snapshot.refused e) = on_client_error h e

unfoldable pub run_production_backup : Host → Outcome
run_production_backup h = snapshot_outcome h (h.create_db_snapshot (snapshot_name h) h.rds_instance)

unfoldable pub execute_daily_backup : Host → Outcome
execute_daily_backup h =
    if str_eq h.environment "development" then run_development_backup h else run_production_backup h

-- What the background coroutine logs.
pub data BackupLog : Type 0 where
  success : Backup → BackupLog
  not_found_error value_error unexpected_error : BackupLog
  process_error : ℤ → Text → BackupLog

-- `stderr_detail[:500] if stderr_detail else "no stderr output"`
abbrev pub shortened : Text → Text
shortened [] = codes "no stderr output"
shortened (c ∷ s) = take 500 (c ∷ s)

abbrev pub stderr_detail : Host → Option Text → Text
stderr_detail h none = shortened []
stderr_detail h (some stderr) = shortened (h.strip stderr)

abbrev pub error_log : Host → BackupError → BackupLog
error_log h BackupError.file_not_found = BackupLog.not_found_error
error_log h (BackupError.called_process exit_code stderr) =
    BackupLog.process_error exit_code (stderr_detail h stderr)
error_log h BackupError.value_error = BackupLog.value_error
error_log h (BackupError.client_error code) = BackupLog.unexpected_error
error_log h BackupError.other_error = BackupLog.unexpected_error

abbrev pub backup_log : Host → Outcome → BackupLog
backup_log h (Outcome.finished b) = BackupLog.success b
backup_log h (Outcome.raised e) = error_log h e

unfoldable pub run_daily_backup_in_background : Host → BackupLog
run_daily_backup_in_background h = backup_log h (execute_daily_backup h)
