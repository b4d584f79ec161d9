-- ===== src/Services/Backup/Daily.antt =====
-- What the daily backup of backend/app/services/backup_service.py does with the settings' URL.
use bank_transaction_system.Base.{◌≡◌, ◌∙◌, true, false, none, some, List, [], ◌∷◌, ◌++◌, str_eq}
use bank_transaction_system.Base.Text.{Text, codes}
use bank_transaction_system.Services.Backup.Url.{slash, pg_dump_args, parse_db_url_for_pg_dump}
use bank_transaction_system.Services.Backup.RoundTrip.{DbUrl, IsUrl, write_url, parts, parse-write}
use bank_transaction_system.Services.Backup.{
  Host, Snapshot, BackupError, BackupLog, file_name, snapshot_name, backup_dir, backup_log,
  completed, run_development_backup, run_production_backup, dump, execute_daily_backup,
  run_daily_backup_in_background,
}

made_directory :
    (h : Host)
    → h.makedirs backup_dir ≡ none
    → run_development_backup h ≡ dump h (parse_db_url_for_pg_dump h.is_digit h.database_url)
unfolding run_development_backup
made_directory h made = rw (made, run_development_backup)

dump_parsed :
    (h : Host) (args : List Text)
    → parse_db_url_for_pg_dump h.is_digit h.database_url ≡ some args
    → dump h (parse_db_url_for_pg_dump h.is_digit h.database_url)
      ≡ completed h
          (h.run_command (args ++ (codes "-f" ∷ h.path_join backup_dir (file_name h) ∷ [])))
unfolding dump
dump_parsed h args parsed = rw parsed

-- In development, where the directory is made and the settings' URL is written from its parts: the
-- coroutine runs pg_dump with the URL's host, port, user and database into the day's file, and
-- logs what comes of it.
pub development_backup :
    (h : Host) (u : DbUrl)
    → str_eq h.environment "development" ≡ true
    → h.makedirs backup_dir ≡ none
    → h.database_url ≡ write_url u
    → h.is_digit slash ≡ false
    → IsUrl h.is_digit u
    → run_daily_backup_in_background h
      ≡ backup_log h (
          completed h (
            h.run_command
              (pg_dump_args (parts u) ++ (codes "-f" ∷ h.path_join backup_dir (file_name h) ∷ []))))
unfolding run_daily_backup_in_background execute_daily_backup
development_backup h u dev made url end ok =
    let parsed : parse_db_url_for_pg_dump h.is_digit h.database_url
        ≡ some (pg_dump_args (parts u)) =
      rw url (parse-write h.is_digit u end ok) in
    rw dev (λ k.
      backup_log h ((made_directory h made ∙ dump_parsed h (pg_dump_args (parts u)) parsed) k))

-- In production, if RDS answers that the day's snapshot exists, the coroutine logs a success with
-- the status already_exists.
pub production_backup_again :
    (h : Host)
    → str_eq h.environment "development" ≡ false
    → h.create_db_snapshot (snapshot_name h) h.rds_instance
      ≡ Snapshot.refused (BackupError.client_error "DBSnapshotAlreadyExists")
    → run_daily_backup_in_background h
      ≡ BackupLog.success
          (record { snapshot_id = snapshot_name h; status = codes "already_exists" })
unfolding run_daily_backup_in_background execute_daily_backup run_production_backup
production_backup_again h prod exists = simp (prod, exists)
