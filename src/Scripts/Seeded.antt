-- ===== src/Scripts/Seeded.antt =====
-- What backend/scripts/seed_admin.py leaves.
use bank_transaction_system.Base.{String, ◌≡◌, refl, true, Option, none, some, List, [], ◌∷◌, ◌++◌}
use bank_transaction_system.Base.Rows.{select, select-append}
use bank_transaction_system.Models.{User, UserRole, Db}
use bank_transaction_system.Platform.{Platform, hash_password}
use bank_transaction_system.Orm.{Result, ok, err, Session, Env, Orm, executed, continue}
use bank_transaction_system.Orm.Ends.{Ends}
use bank_transaction_system.Crud.Statements.{begun, select_all_lem}
use bank_transaction_system.Crud.Users as Rows
use bank_transaction_system.Crud.Users.{insert_user, new_user}
use bank_transaction_system.Integrity.Registered.{insert_user_written}
use bank_transaction_system.Scripts.{admin_email, admin_form, first, seed_missing, seed}

abbrev admins : Db → List User
admins d = select (Rows.has_email admin_email) d.users

abbrev NonEmpty : List User → Type 0
NonEmpty [] = ⊥
NonEmpty (u ∷ rows) = Unit

new_admin :
    (env : Env) (hash pw : String)
    → select (Rows.has_email admin_email) (new_user env UserRole.admin hash (admin_form pw) ∷ [])
      ≡ new_user env UserRole.admin hash (admin_form pw) ∷ []
unfolding select
new_admin env hash pw = refl

one_admin :
    (env : Env) (hash pw : String) (d d' : Db)
    → d' ≡ record d { users = d.users ++ (new_user env UserRole.admin hash (admin_form pw) ∷ []) }
    → admins d ≡ []
    → NonEmpty (admins d')
one_admin env hash pw d d' written nothing = rw written (
    rw
      (select-append (Rows.has_email admin_email) d.users
        (new_user env UserRole.admin hash (admin_form pw) ∷ []))
      (rw nothing (rw (new_admin env hash pw) tt)))

module _ ⦃orm : Orm⦄ ⦃p : Platform⦄ where
  inserted-admin :
      (env : Env) (hash pw : String) (s : Session) (r : Result (User × Db))
      → insert_user (new_user env UserRole.admin hash (admin_form pw)) s.db ≡ r
      → admins s.db ≡ []
      → Ends (λ u d. NonEmpty (admins d)) (continue (executed s r) (λ u. orm.commit))
  inserted-admin env hash pw s (ok (a, d')) e nothing =
      let new = new_user env UserRole.admin hash (admin_form pw) in
      let written = (insert_user_written new a s.db d' e).1 in
      rw (orm.commit_lem (record s { db = d'; in_transaction = true }))
        (one_admin env hash pw s.db d' written nothing)
  inserted-admin env hash pw s (err c) e nothing = tt

  created-admin :
      (env : Env) (pw : String) (s : Session) (o : Option String)
      → hash_password pw env.gensalt ≡ o
      → admins s.db ≡ []
      → Ends
          (λ u d. NonEmpty (admins d))
          (continue (Rows.create_admin env (admin_form pw) s) (λ u. orm.commit))
  unfolding Rows.create_admin Rows.create_hashed
  created-admin env pw s none h nothing = rw h tt
  created-admin env pw s (some hash) h nothing = rw h (
      rw (orm.execute_lem User (insert_user (new_user env UserRole.admin hash (admin_form pw))) s) (
        inserted-admin env hash pw s
          (insert_user (new_user env UserRole.admin hash (admin_form pw)) s.db) refl nothing))

  seed-admins :
      (env : Env) (pw : String) (s : Session) (rows : List User)
      → admins s.db ≡ rows
      → Ends (λ u d. NonEmpty (admins d)) (seed_missing env pw (first rows) s)
  unfolding seed_missing
  seed-admins env pw s [] e = created-admin env pw s (hash_password pw env.gensalt) refl e
  seed-admins env pw s (u ∷ rows) e = rw e tt

  seeded :
      (env : Env) (pw : String) (s : Session) → Ends (λ u d. NonEmpty (admins d)) (seed env pw s)
  unfolding seed
  seeded env pw s =
      rw (select_all_lem (λ d. select (Rows.has_email admin_email) d.users) s)
        (seed-admins env pw (begun s) (admins s.db) refl)

  skipped :
      (env : Env) (pw : String) (s : Session) (rows : List User)
      → NonEmpty rows
      → seed_missing env pw (first rows) s ≡ (ok tt, s)
  unfolding seed_missing
  skipped env pw s [] h = elim h [ ]
  skipped env pw s (u ∷ rows) h = refl

  again :
      (env : Env) (pw : String) (s : Session)
      → NonEmpty (admins s.db)
      → seed env pw s ≡ (ok tt, begun s)
  unfolding seed
  again env pw s h =
      rw (select_all_lem (λ d. select (Rows.has_email admin_email) d.users) s)
        (skipped env pw (begun s) (admins s.db) h)

  -- Once the script has run, a second run on a database that it left, with any password and any
  -- new identifier, succeeds and writes nothing.
  pub seed_once :
      (env env' : Env) (pw pw' : String) (s t u : Session)
      → seed env pw s ≡ (ok tt, t)
      → u.db ≡ t.db
      → seed env' pw' u ≡ (ok tt, begun u)
  seed_once env env' pw pw' s t u e same =
      let there : NonEmpty (admins t.db) = rw e at (seeded env pw s) in
      again env' pw' u (rw same there)
