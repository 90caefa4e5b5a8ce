-- ===== src/EnsureDatabase/Safe.antt =====
-- Which databases `ensure_database` creates.
use commerceops_ai_platform.Base.{
  ⊤, ◌≡◌, refl, ap, subst, ◌∙◌, ◌⊎◌, inl, inr, Bool, true, false, Bool-cases, ◌||◌, str_eq,
  str_eq_sound, if◌then◌else◌, Result, ok, err, arith,
}
use Prim.Native.String.{String}
use Prim.Native.Char.{Char}
use text.Mathlib.Text.{starts_with}
use text.Mathlib.TextEquality.{eq_iff}
use commerceops_ai_platform.EnsureDatabase.{
  Urls, Server, is_char, without_underscores, every_char, is_alnum, is_safe, maintenance_url,
  create_missing, connected, ensure_database,
}

-- What is used of the server: only `CREATE DATABASE` creates, and no other database than its own.
pub record IsServer {S : Type 0} (server : Server S) (has : S → String → Type 0) : Type 0 where
  pub has-connect : (url name : String) (s : S) → has (server.connect url s).1 name → has s name
  pub has-exists : (other name : String) (s : S) → has (server.exists other s).1 name → has s name
  pub has-dispose : (name : String) (s : S) → has (server.dispose s) name → has s name
  pub has-create_database :
      (own name : String) (s : S)
      → has (server.create_database own s).1 name
      → (name ≡ own) ⊎ has s name

module _ (is_letter_or_digit : Char → Bool) {S : Type 0} (urls : Urls) (server : Server S)
    (has : S → String → Type 0) (laws : IsServer server has)
    (no_quote : (c : Char) → is_char "\"" c ≡ true → is_letter_or_digit c ≡ false)
    (database_url : String) where
  abbrev target : String
  target = (maintenance_url is_letter_or_digit urls server database_url).1

  -- Nothing in the text closes the quotes of `CREATE DATABASE "…"`.
  abbrev pub IsQuotable : String → Type 0
  IsQuotable String.[] = Unit {0}
  IsQuotable (String.◌∷◌ c s) = (is_char "\"" c ≡ false) × IsQuotable s

  underscore_is_no_quote : (c : Char) → is_char "_" c ≡ true → is_char "\"" c ≡ false
  underscore_is_no_quote c h = elim (Bool-cases (is_char "\"" c)) [
    | inr other ↦ other
    | inl quote ↦ absurd (
        both (str_eq_sound (String.◌∷◌ c String.[]) "_" h)
          (str_eq_sound (String.◌∷◌ c String.[]) "\"" quote))
  ]
    where
      both : {text : String} → text ≡ "_" → text ≡ "\"" → ⊥
      both a b = ground (arith, eq_iff "_" "\"", a, b)

  words-IsQuotable :
      (name : String)
      → every_char is_letter_or_digit (without_underscores name) ≡ true
      → IsQuotable name
  words-IsQuotable String.[] h = tt
  words-IsQuotable (String.◌∷◌ c s) h = elim (Bool-cases (is_char "_" c)) [
    | inl under ↦ (
      underscore_is_no_quote c under,
      words-IsQuotable s (
          subst
            (λ b.
              every_char is_letter_or_digit
                (if b then without_underscores s else String.◌∷◌ c (without_underscores s))
              ≡ true)
            under h),
    )
    | inr other ↦
        let whole : every_char is_letter_or_digit (String.◌∷◌ c (without_underscores s)) ≡ true =
          subst
            (λ b.
              every_char is_letter_or_digit
                (if b then without_underscores s else String.◌∷◌ c (without_underscores s))
              ≡ true)
            other h in
        (ground (arith, no_quote c, whole), words-IsQuotable s (ground (arith, whole)))
  ]

  alnum_every :
      (text : String)
      → is_alnum is_letter_or_digit text ≡ true
      → every_char is_letter_or_digit text ≡ true
  alnum_every String.[] h = refl
  alnum_every (String.◌∷◌ c s) h = h

  is_safe-IsQuotable : (name : String) → is_safe is_letter_or_digit name ≡ true → IsQuotable name
  unfolding is_safe
  is_safe-IsQuotable name h = words-IsQuotable name (alnum_every (without_underscores name) h)

  -- A database that was there, or the one that the URL names, with a name that has no quote.
  abbrev pub Expected : S → String → Type 0
  Expected s name = has s name ⊎ ((name ≡ target) × IsQuotable name)

  create_missing-Expected :
      (o : Result ⊤ Bool × S) (name : String)
      → has (create_missing is_letter_or_digit urls server target o) name
      → Expected o.1 name
  create_missing-Expected (err e, s) name h = inl h
  create_missing-Expected (ok true, s) name h = inl h
  create_missing-Expected (ok false, s) name h =
      elim (Bool-cases (is_safe is_letter_or_digit target)) [
        | inr unsafe ↦
            inl (
              subst (λ b. has (if b then (server.create_database target s).1 else s) name) unsafe h)
        | inl safe ↦
            elim (laws.has-create_database target name s (
              subst (λ b. has (if b then (server.create_database target s).1 else s) name) safe
                h)) [
                  | inl own ↦
                      inr
                        (own, is_safe-IsQuotable name (ap (is_safe is_letter_or_digit) own ∙ safe))
                  | inr before ↦ inl before
                ]
      ]

  before_exists :
      (s : S) (name : String) → Expected (server.exists target s).1 name → Expected s name
  before_exists s name (inl h) = inl (laws.has-exists target name s h)
  before_exists s name (inr new) = inr new

  connected-Expected :
      (o : Result ⊤ ⊤ × S) (name : String)
      → has (connected is_letter_or_digit urls server target o) name
      → Expected o.1 name
  connected-Expected (err e, s) name h = inl h
  connected-Expected (ok c, s) name h =
      before_exists s name (create_missing-Expected (server.exists target s) name h)

  before_connect :
      (url : String) (s : S) (name : String)
      → Expected (server.connect url s).1 name
      → Expected s name
  before_connect url s name (inl h) = inl (laws.has-connect url name s h)
  before_connect url s name (inr new) = inr new

  -- Where only `CREATE DATABASE` creates a database, and whatever calls fail: a database that is
  -- there after `ensure_database` was there before, or it is the one that the URL names, and no
  -- character of its name is a double quote, so that it cannot leave the quotes of the statement.
  -- A double quote is taken to be no letter and no digit.
  pub ensure_database_safe :
      (s : S) (name : String)
      → has (ensure_database is_letter_or_digit urls server database_url s) name
      → Expected s name
  unfolding ensure_database
  ensure_database_safe s name h =
      let maint_url = (maintenance_url is_letter_or_digit urls server database_url).0 in
      go maint_url (starts_with database_url "sqlite" || str_eq target "postgres") h
    where
      go :
          (maint_url : String) (skip : Bool)
          → has
              (if skip
                then s
                else server.dispose
                    (connected is_letter_or_digit urls server target (server.connect maint_url s)))
              name
          → Expected s name
      go maint_url true h = inl h
      go maint_url false h = before_connect maint_url s name (
          connected-Expected (server.connect maint_url s) name (
            laws.has-dispose name
              (connected is_letter_or_digit urls server target (server.connect maint_url s)) h))
