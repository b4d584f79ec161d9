-- ===== src/Deps/Roles.antt =====
-- Who passes the dependencies of the admin and the customer endpoints (backend/app/deps.py).
use bank_transaction_system.Base.{◌≡◌, Bool, true, false, not, arith, ◌||◌}
use bank_transaction_system.Models.{User}
use bank_transaction_system.Orm.{Result, ok, err, Env}
use bank_transaction_system.Deps.{get_current_admin, get_current_customer}

-- Whether a call returned.
abbrev pub is_ok : {A : Type 0} → Result A → Bool
is_ok (ok a) = true
is_ok (err e) = false

-- No user passes as an admin and as a customer, from whatever address.
pub admin_or_customer :
    (env : Env) (user : User)
    → (not (is_ok (get_current_admin env user)) || not (is_ok (get_current_customer user))) ≡ true
unfolding get_current_admin get_current_customer
admin_or_customer env user = ground arith
