-- ===== src/EnsureDatabase/Tests.antt =====
-- A server that has one database, and two URLs.
use commerceops_ai_platform.Base.{
  ◌≡◌, refl, sym, inl, inr, Bool, Bool-cases, true, ◌||◌, not, List, [], ◌∷◌, contains, str_eq,
  str_eq_sound, subst, ok, arith, false,
}
use Prim.Native.String.{String}
use Prim.Native.Char.{Char}
use commerceops_ai_platform.EnsureDatabase.{Urls, Server, is_char, is_safe, ensure_database}
use commerceops_ai_platform.EnsureDatabase.Safe.{IsServer, Expected, ensure_database_safe}

-- Every character but a quote and a blank.
abbrev plain : Char → Bool
plain c = not (is_char "\"" c || is_char " " c)

plain_no_quote : (c : Char) → is_char "\"" c ≡ true → plain c ≡ false
plain_no_quote c h = ground (arith, h)

-- A URL is its path here.
abbrev urls : Urls
urls = record { path = λ url. url; with_path = λ url path. path }

abbrev server : Server (List String)
server = record {
  connect = λ url s. (ok tt, s);
  exists = λ name s. (ok (contains name s), s);
  create_database = λ name s. (ok tt, name ∷ s);
  dispose = λ s. s;
}

abbrev Has : List String → String → Type 0
Has s name = contains name s ≡ true

server-IsServer : IsServer server Has
server-IsServer = record {
  has-connect = λ url name s h. h;
  has-exists = λ other name s h. h;
  has-dispose = λ name s h. h;
  has-create_database = λ own name s h. elim (Bool-cases (str_eq own name)) [
    | inl same ↦ inl (sym (str_eq_sound own name same))
    | inr other ↦ inr (subst (λ b. b || contains name s ≡ true) other h)
  ];
}

created_test :
    ensure_database plain urls server "/order_db" ("postgres" ∷ []) ≡ "order_db" ∷ "postgres" ∷ []
unfolding ensure_database is_safe
created_test = refl

refused_test : ensure_database plain urls server "/a\" b" ("postgres" ∷ []) ≡ "postgres" ∷ []
unfolding ensure_database is_safe
refused_test = refl

ensure_database_safe_example :
    Expected plain urls server Has server-IsServer plain_no_quote "/order_db"
      ("postgres" ∷ [])
      "order_db"
ensure_database_safe_example =
    ensure_database_safe plain urls server Has server-IsServer plain_no_quote "/order_db"
      ("postgres" ∷ []) "order_db" created
  where
    created : Has (ensure_database plain urls server "/order_db" ("postgres" ∷ [])) "order_db"
    created = unfold ensure_database is_safe in refl
