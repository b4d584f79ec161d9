-- ===== src/Tests/Emails.antt =====
-- The email validator and the settings' origins.
use bank_transaction_system.Base.{ℕ, ◌≡◌, refl, Bool, some, none, [], ◌∷◌, ◌==◌}
use bank_transaction_system.Core.{allowed_origins}
use bank_transaction_system.Core.Origins.{IsOrigin, origins-join}
use bank_transaction_system.Base.Text.{codes, span}
use bank_transaction_system.Utils.{
  validate_email, email_matches, is_local, is_domain, is_tld, is_alnum, all_in, before_end,
  last_dot, is_host, lower,
}
use bank_transaction_system.Utils.Idempotent.{validate_email_again}

validate_email_again_example :
    validate_email (codes "alice@bank.com") ≡ some (codes "alice@bank.com")
unfolding validate_email email_matches span is_local is_domain is_tld is_alnum all_in before_end
    last_dot is_host lower
validate_email_again_example =
    validate_email_again (codes "Alice@Bank.com") (codes "alice@bank.com") refl

abbrev is_space : ℕ → Bool
is_space c = c == 32

site_a : IsOrigin is_space (codes "https://a.io")
site_a = record {
  nonempty = tt;
  no_space = (
    refl,
    (refl, (refl, (refl, (refl, (refl, (refl, (refl, (refl, (refl, (refl, (refl, tt))))))))))),
  );
  no_comma = (
    refl,
    (refl, (refl, (refl, (refl, (refl, (refl, (refl, (refl, (refl, (refl, (refl, tt))))))))))),
  );
}

site_b : IsOrigin is_space (codes "https://b.io")
site_b = record {
  nonempty = tt;
  no_space = (
    refl,
    (refl, (refl, (refl, (refl, (refl, (refl, (refl, (refl, (refl, (refl, (refl, tt))))))))))),
  );
  no_comma = (
    refl,
    (refl, (refl, (refl, (refl, (refl, (refl, (refl, (refl, (refl, (refl, (refl, tt))))))))))),
  );
}

origins-join_example :
    allowed_origins is_space (λ raw. none) (codes "https://a.io, https://b.io")
    ≡ some (codes "https://a.io" ∷ codes "https://b.io" ∷ [])
origins-join_example =
    origins-join is_space (32 ∷ []) (record { space = (refl, tt); no_comma = (refl, tt) })
      (λ raw. none) b'h' (codes "ttps://a.io") (codes "https://b.io" ∷ []) refl site_a (site_b, tt)
