-- ===== src/EnsureDatabase.antt =====
-- app/core/ensure_database.py. `urlparse` and `urlunparse` are parameters, and so are the database
-- server and Python's test for a letter or digit.
pub mod Safe
mod Tests
use commerceops_ai_platform.Base.{
  ⊤, Bool, true, false, ◌&&◌, ◌||◌, not, String, str_eq, if◌then◌else◌, Result, ok, err,
}
use Prim.Native.String.{String}
use Prim.Native.Char.{Char}
use text.Mathlib.Text.{starts_with}

-- `urlparse(url).path`, and `urlunparse` of the parts with another path.
pub record Urls : Type 0 where
  pub path : String → String
  pub with_path : String → String → String

-- The server over the state `S`: a connection to the URL, the query for a name, `CREATE DATABASE`, and
-- `engine.dispose()`.
pub record Server (S : Type 0) : Type 0 where
  pub connect : String → S → Result ⊤ ⊤ × S
  pub exists : String → S → Result ⊤ Bool × S
  pub create_database : String → S → Result ⊤ ⊤ × S
  pub dispose : S → S

abbrev pub is_char : String → Char → Bool
is_char text c = str_eq (String.◌∷◌ c String.[]) text

-- `lstrip("/")`
abbrev pub lstrip : String → String
lstrip String.[] = String.[]
lstrip (String.◌∷◌ c s) = let rest = lstrip s in if is_char "/" c then rest else String.◌∷◌ c s

-- `replace("_", "")`
abbrev pub without_underscores : String → String
without_underscores String.[] = String.[]
without_underscores (String.◌∷◌ c s) =
    let rest = without_underscores s in if is_char "_" c then rest else String.◌∷◌ c rest

-- `name or "postgres"`
abbrev pub or_postgres : String → String
or_postgres String.[] = "postgres"
or_postgres (String.◌∷◌ c s) = String.◌∷◌ c s

module _ (is_letter_or_digit : Char → Bool) where
  abbrev pub every_char : String → Bool
  every_char String.[] = true
  every_char (String.◌∷◌ c s) = is_letter_or_digit c && every_char s

  -- `isalnum()`, which is false of the empty text
  abbrev pub is_alnum : String → Bool
  is_alnum String.[] = false
  is_alnum (String.◌∷◌ c s) = every_char (String.◌∷◌ c s)

  -- `db_name.replace("_", "").isalnum()`
  unfoldable pub is_safe : String → Bool
  is_safe name = is_alnum (without_underscores name)

  module _ {S : Type 0} (urls : Urls) (server : Server S) where
    unfoldable pub maintenance_url : String → String × String
    maintenance_url database_url =
        let name = or_postgres (lstrip (urls.path database_url)) in
        if str_eq name "postgres"
        then (database_url, name)
        else (urls.with_path database_url "/postgres", name)

    -- The body of the `with`, from the query's answer on. What is raised is swallowed, the
    -- `ValueError` too.
    abbrev pub create_missing : String → Result ⊤ Bool × S → S
    create_missing name (err e, s) = s
    create_missing name (ok true, s) = s
    create_missing name (ok false, s) =
        if is_safe name then (server.create_database name s).1 else s

    abbrev pub connected : String → Result ⊤ ⊤ × S → S
    connected name (err e, s) = s
    connected name (ok c, s) = create_missing name (server.exists name s)

    unfoldable pub ensure_database : String → S → S
    unfolding maintenance_url is_safe
    ensure_database database_url s =
        let (maint_url, name) = maintenance_url database_url in
        if starts_with database_url "sqlite" || str_eq name "postgres"
        then s
        else server.dispose (connected name (server.connect maint_url s))
