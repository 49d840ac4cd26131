-- ===== src/Config/Loaded.antt =====
-- data-source.ts and broker/demo-setup.ts: what the file .env may define.
use course_project.Base.{
  ◌≡◌, refl, ap, sym, subst, ◌∙◌, Bool, true, false, Option, none, some, List, [], ◌∷◌, ◌++◌, ok,
  if◌then◌else◌, arith, Bool-cases, inl, inr,
}
use course_project.Base.Text.{Text, codes, text_eq, text_eq_iff, truthy}
use course_project.Config.{
  Env, get_env, parse_line, load_entry, define_new, load_lines, split_lines, load_file,
  load_dot_env, is_set, or_default, PgConn, UrlHost, connection_from_db_vars, data_source_conn,
  demo_conn, or_url, connection_from_url, demo_with_url, parsed_url, raw_url,
}
use course_project.Js.{Host}

-- The value of the first line that defines `k`.
abbrev pub value_in : Text → Option (Text × Text) → Option Text → Option Text
value_in k none rest = rest
value_in k (some (j, v)) rest = if text_eq j k then some v else rest

abbrev pub first_value : Text → List Text → Option Text
first_value k [] = none
first_value k (line ∷ lines) = value_in k (parse_line line) (first_value k lines)

-- The first of two values that is there.
abbrev pub either : Option Text → Option Text → Option Text
either none second = second
either (some v) second = some v

either-none : (old : Option Text) → either old none ≡ old
either-none none = refl
either-none (some v) = refl

get_env-append :
    (k j v : Text) (env : Env)
    → get_env k (env ++ (j, v) ∷ []) ≡ either (get_env k env) (if text_eq j k then some v else none)
get_env-append k j v [] = ground arith
get_env-append k j v ((i, w) ∷ env) = ground (arith, get_env-append k j v env)

define_new-get :
    (k j v : Text) (old : Option Text) (env : Env)
    → get_env j env ≡ old
    → get_env k (define_new old (j, v) env)
      ≡ either (get_env k env) (if text_eq j k then some v else none)
define_new-get k j v none env h = get_env-append k j v env
define_new-get k j v (some w) env h = elim (Bool-cases (text_eq j k)) [
  | inl same ↦
      let found = subst (λ x. get_env x env ≡ some w) ((text_eq_iff j k).0 same) h in rw found refl
  | inr other ↦ rw other (sym (either-none (get_env k env)))
]

either_twice :
    (old : Option Text) (b : Bool) (v : Text) (rest : Option Text)
    → either (either old (if b then some v else none)) rest
      ≡ either old (if b then some v else rest)
either_twice (some w) b v rest = refl
either_twice none true v rest = refl
either_twice none false v rest = refl

load_entry-get :
    (k : Text) (entry : Option (Text × Text)) (env : Env) (rest : Option Text)
    → either (get_env k (load_entry entry env)) rest
      ≡ either (get_env k env) (value_in k entry rest)
load_entry-get k none env rest = refl
load_entry-get k (some (j, v)) env rest =
    ap (λ o. either o rest) (define_new-get k j v (get_env j env) env refl)
    ∙ either_twice (get_env k env) (text_eq j k) v rest

-- A variable has the value that the shell has given it, or else that of the first line which
-- defines it.
pub load_lines-get :
    (k : Text) (lines : List Text) (env : Env)
    → get_env k (load_lines lines env) ≡ either (get_env k env) (first_value k lines)
unfolding load_lines
load_lines-get k [] env = sym (either-none (get_env k env))
load_lines-get k (line ∷ lines) env =
    load_lines-get k lines (load_entry (parse_line line) env)
    ∙ load_entry-get k (parse_line line) env (first_value k lines)

-- Host, user and database name, as the shell gives them.
pub record IsShell (env : Env) (name username database : Text) : Type 0 where
  pub host_name : get_env (codes "DB_HOST") env ≡ some name
  pub user : get_env (codes "DB_USER") env ≡ some username
  pub base : get_env (codes "DB_NAME") env ≡ some database
  pub has_host_name : truthy name ≡ true
  pub has_user : truthy username ≡ true
  pub has_base : truthy database ≡ true

module _ (host : Host) (name username database : Text) where
  abbrev pub conn_with : Option Text → Option Text → PgConn
  conn_with port password = record {
    host_name = name;
    port = host.number_of_text (or_default port (codes "5432"));
    username = username;
    password = or_default password [];
    database = database;
  }

  connection-IsShell :
      (env : Env)
      → IsShell env name username database
      → connection_from_db_vars host env
        ≡ some (conn_with (get_env (codes "DB_PORT") env) (get_env (codes "DB_PASSWORD") env))
  unfolding connection_from_db_vars
  connection-IsShell env s =
      rw (s.host_name, s.user, s.base, s.has_host_name, s.has_user, s.has_base) refl

  load_dot_env-IsShell :
      (file : Option Text) (env : Env)
      → IsShell env name username database
      → load_dot_env file env ≡ env
  unfolding load_dot_env
  load_dot_env-IsShell file env s =
      let set : is_set (codes "DB_HOST") env ≡ true = rw (s.host_name, is_set) s.has_host_name in
      ground (arith, set)

  load_lines-IsShell :
      (lines : List Text) (env : Env)
      → IsShell env name username database
      → IsShell (load_lines lines env) name username database
  load_lines-IsShell lines env s = record {
    host_name =
        load_lines-get _ lines env
        ∙ ap (λ o. either o (first_value (codes "DB_HOST") lines)) s.host_name;
    user =
        load_lines-get _ lines env
        ∙ ap (λ o. either o (first_value (codes "DB_USER") lines)) s.user;
    base =
        load_lines-get _ lines env
        ∙ ap (λ o. either o (first_value (codes "DB_NAME") lines)) s.base;
    has_host_name = s.has_host_name;
    has_user = s.has_user;
    has_base = s.has_base;
  }

  -- If the shell gives host, user and database name, then both programs connect there, and port and
  -- password are those of the shell, if it gives them. If it does not, the API takes the defaults, but
  -- the broker demos take what .env defines first.
  pub conn-IsShell :
      (urls : UrlHost) (text : Text) (env : Env)
      → IsShell env name username database
      → let port = get_env (codes "DB_PORT") env in
        let password = get_env (codes "DB_PASSWORD") env in
        let lines = split_lines text in
        (data_source_conn host urls (some text) env ≡ ok (conn_with port password))
        × (demo_conn host urls (some text) env
            ≡ ok (
                conn_with
                  (either port (first_value (codes "DB_PORT") lines))
                  (either password (first_value (codes "DB_PASSWORD") lines))))
  unfolding data_source_conn demo_conn load_file
  conn-IsShell urls text env s =
      let lines = split_lines text in
      let loaded = load_lines lines env in
      let shell = load_lines-IsShell lines env s in
      (
        ap (λ e. or_url (connection_from_db_vars host e) (connection_from_url host urls e))
              (load_dot_env-IsShell (some text) env s)
            ∙ ap (λ c. or_url c (connection_from_url host urls env)) (connection-IsShell env s),
        ap
              (λ c.
                or_url c
                  (demo_with_url host urls (parsed_url host urls (raw_url host urls loaded))))
              (connection-IsShell loaded shell)
            ∙ ap (λ p. ok (conn_with p (get_env (codes "DB_PASSWORD") loaded)))
                (load_lines-get (codes "DB_PORT") lines env)
            ∙ ap
                (λ p. ok (
                  conn_with
                    (either (get_env (codes "DB_PORT") env) (first_value (codes "DB_PORT") lines))
                    p))
                (load_lines-get (codes "DB_PASSWORD") lines env),
      )
