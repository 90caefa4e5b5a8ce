-- ===== src/Settings/Urls.antt =====
-- Validating settings a second time changes nothing.
use commerceops_ai_platform.Base.{ℕ, ◌≡◌, refl, Option, none, some, String}
use commerceops_ai_platform.Settings.{
  Settings, given, url_on, or_else, read_url, redis_on, validated,
}

module _ (quote_plus : String → String) where
  or_else_again :
      (default : String) (o : Option String)
      → or_else quote_plus (or_else quote_plus default o) o ≡ or_else quote_plus default o
  or_else_again default none = refl
  or_else_again default (some url) = refl

  redis_on_again :
      (default : String) (port : ℕ) (o : Option String)
      → redis_on quote_plus (redis_on quote_plus default port o) port o
        ≡ redis_on quote_plus default port o
  redis_on_again default port none = refl
  redis_on_again default port (some host) = refl

  assembled_again :
      (g : Option String) (url : String) → read_url quote_plus g (some url) (some url) ≡ some url
  assembled_again none url = refl
  assembled_again (some explicit) url = refl

  read_url_again :
      (field o : Option String)
      → read_url quote_plus
          (given (read_url quote_plus (given field) field o))
          (read_url quote_plus (given field) field o)
          o
        ≡ read_url quote_plus (given field) field o
  read_url_again none none = refl
  read_url_again none (some url) = assembled_again (given (some url)) url
  read_url_again (some String.[]) none = refl
  read_url_again (some String.[]) (some url) = assembled_again (given (some url)) url
  read_url_again (some (String.◌∷◌ c t)) o = refl

  -- The three validators leave settings that they have been through as they are.
  pub validated_again :
      (s : Settings) → validated quote_plus (validated quote_plus s) ≡ validated quote_plus s
  unfolding validated url_on
  validated_again s i = record s {
    database_url = or_else_again s.database_url (url_on quote_plus s.db_host s) i;
    database_read_url = read_url_again s.database_read_url (url_on quote_plus s.db_read_host s) i;
    redis_url = redis_on_again s.redis_url s.redis_port (given s.redis_host) i;
  }
