-- ===== src/Config.antt =====
-- data-source.ts and broker/demo-setup.ts: the file .env, and where the database is.
pub mod Loaded
pub mod Workers
use course_project.Base.{
  ℕ, suc, ◌==◌, Bool, true, false, not, ◌&&◌, ◌||◌, Option, none, some, List, [], ◌∷◌, ◌++◌, Result,
  ok, err, if◌then◌else◌,
}
use course_project.Base.Text.{Text, codes, text_eq, trim, truthy}
use course_project.Js.{Number, Host}

-- `process.env`, with the first entry of a name as its value
abbrev pub Env : Type 0
Env = List (Text × Text)

abbrev pub get_env : Text → Env → Option Text
get_env k [] = none
get_env k ((j, v) ∷ env) = if text_eq j k then some v else get_env k env

-- `text.split('\n')`
abbrev pub add_line : ℕ → List Text → List Text
add_line c [] = (c ∷ []) ∷ []
add_line c (line ∷ lines) = (c ∷ line) ∷ lines

unfoldable pub split_lines : Text → List Text
split_lines [] = [] ∷ []
split_lines (c ∷ text) =
    let rest = split_lines text in if c == 10 then [] ∷ rest else add_line c rest

-- The texts before and behind the first `=`; `none` where there is none, which is an index of -1.
abbrev pub cons_before : ℕ → Option (Text × Text) → Option (Text × Text)
cons_before c none = none
cons_before c (some (before, behind)) = some (c ∷ before, behind)

unfoldable pub split_at_eq : Text → Option (Text × Text)
split_at_eq [] = none
split_at_eq (c ∷ text) =
    let rest = split_at_eq text in if c == b'=' then some ([], text) else cons_before c rest

abbrev pub starts_with : ℕ → Text → Bool
starts_with c [] = false
starts_with c (d ∷ text) = d == c

abbrev pub ends_with : ℕ → Text → Bool
ends_with c [] = false
ends_with c (d ∷ []) = d == c
ends_with c (d ∷ e ∷ text) = ends_with c (e ∷ text)

-- `text.slice(1, -1)`
abbrev pub without_last : Text → Text
without_last [] = []
without_last (c ∷ []) = []
without_last (c ∷ d ∷ text) = c ∷ without_last (d ∷ text)

abbrev pub without_ends : Text → Text
without_ends [] = []
without_ends (c ∷ text) = without_last text

abbrev pub unquoted : Text → Text
unquoted value =
    if (starts_with b'"' value && ends_with b'"' value)
      || (starts_with 39 value && ends_with 39 value)
    then without_ends value
    else value

-- The name and the value of a line: it is not empty and no comment, and its `=` is not its first
-- character.
abbrev pub entry_of : Option (Text × Text) → Option (Text × Text)
entry_of none = none
entry_of (some ([], behind)) = none
entry_of (some (c ∷ before, behind)) = some (trim (c ∷ before), unquoted (trim behind))

unfoldable pub parse_line : Text → Option (Text × Text)
unfolding split_at_eq
parse_line line =
    let trimmed = trim line in
    if not (truthy trimmed) || starts_with b'#' trimmed
    then none
    else entry_of (split_at_eq trimmed)

-- `if (process.env[key] !== undefined) continue; … process.env[key] = value`
abbrev pub define_new : Option Text → Text × Text → Env → Env
define_new (some _) entry env = env
define_new none entry env = env ++ entry ∷ []

abbrev pub load_entry : Option (Text × Text) → Env → Env
load_entry none env = env
load_entry (some (k, v)) env = define_new (get_env k env) (k, v) env

unfoldable pub load_lines : List Text → Env → Env
load_lines [] env = env
load_lines (line ∷ lines) env = load_lines lines (load_entry (parse_line line) env)

abbrev pub is_set : Text → Env → Bool
is_set k env = elim (get_env k env) [ none ↦ false | some v ↦ truthy v ]

-- `loadDotEnv` of demo-setup.ts; `file` is the text of .env, if it exists.
unfoldable pub load_file : Option Text → Env → Env
unfolding load_lines split_lines
load_file none env = env
load_file (some text) env = load_lines (split_lines text) env

-- `loadDotEnv` of data-source.ts
unfoldable pub load_dot_env : Option Text → Env → Env
unfolding load_file
load_dot_env file env =
    if is_set (codes "DB_URL") env
      || is_set (codes "DATABASE_URL") env
      || is_set (codes "DB_HOST") env
    then env
    else load_file file env

pub record PgConn : Type 0 where
  pub host_name : Text
  pub port : Number
  pub username : Text
  pub password : Text
  pub database : Text

abbrev pub or_default : Option Text → Text → Text
or_default none fallback = fallback
or_default (some v) fallback = v

-- `if (!host || !username || !database) return null`
abbrev pub truthy_of : Option Text → Option Text
truthy_of none = none
truthy_of (some v) = if truthy v then some v else none

module _ (host : Host) where
  abbrev pub conn_of : Env → Option Text → Option Text → Option Text → Option PgConn
  conn_of env (some name) (some username) (some database) = some (record {
    host_name = name;
    port = host.number_of_text (or_default (get_env (codes "DB_PORT") env) (codes "5432"));
    username = username;
    password = or_default (get_env (codes "DB_PASSWORD") env) [];
    database = database;
  })
  conn_of env _ _ _ = none

  -- `connectionFromDbVars`, and the first half of `pgConfig`
  unfoldable pub connection_from_db_vars : Env → Option PgConn
  connection_from_db_vars env =
      conn_of env (truthy_of (get_env (codes "DB_HOST") env))
        (truthy_of (get_env (codes "DB_USER") env)) (truthy_of (get_env (codes "DB_NAME") env))

-- The parts of a `URL` that are read.
pub record Url : Type 0 where
  pub hostname : Text
  pub port : Text
  pub username : Text
  pub password : Text
  pub pathname : Text

-- `new URL(raw)` and `decodeURIComponent`, `none` where they throw, and the files that exist.
pub record UrlHost : Type 0 where
  pub parse_url : Text → Option Url
  pub decode : Text → Option Text
  pub read_file : Text → Option Text

pub data ConfigError : Type 0 where
  missing bad_url bad_escape : ConfigError

-- `connection ?? …`
abbrev pub or_url : Option PgConn → Result ConfigError PgConn → Result ConfigError PgConn
or_url (some conn) rest = ok conn
or_url none rest = rest

abbrev pub decoded : Option Text → Result ConfigError Text
decoded none = err bad_escape
decoded (some t) = ok t

-- `.replace(/^\//, '')`
abbrev pub without_slash : Text → Text
without_slash [] = []
without_slash (c ∷ path) = if c == b'/' then path else c ∷ path

-- `.replace(/\?.*$/, '')`
abbrev pub before_query : Text → Text
before_query [] = []
before_query (c ∷ path) = let rest = before_query path in if c == b'?' then [] else c ∷ rest

module _ (host : Host) (urls : UrlHost) where
  abbrev pub password_in_file : Option Text → Text
  password_in_file none = []
  password_in_file (some content) = trim content

  -- `passwordFromUrlOrFile`
  unfoldable pub password_from_url_or_file : Url → Env → Result ConfigError Text
  password_from_url_or_file url env =
      if truthy url.password
      then decoded (urls.decode url.password)
      else ok (elim (truthy_of (get_env (codes "DB_PASSWORD") env)) [
        | some password ↦ password
        | none ↦ password_in_file (
            urls.read_file
              (or_default (get_env (codes "DB_PASSWORD_FILE") env) (codes "secrets/db_password")))
      ])

  abbrev pub conn_of_url :
      Url → Result ConfigError Text → Result ConfigError Text → Text → Result ConfigError PgConn
  conn_of_url url (err e) password database = err e
  conn_of_url url (ok username) (err e) database = err e
  conn_of_url url (ok username) (ok password) database = ok (record {
    host_name = url.hostname;
    port = host.number_of_text (if truthy url.port then url.port else codes "5432");
    username = username;
    password = password;
    database = database;
  })

  abbrev pub raw_url : Env → Option Text
  raw_url env = truthy_of (elim (get_env (codes "DATABASE_URL") env) [
    | some raw ↦ some raw
    | none ↦ get_env (codes "DB_URL") env
  ])

  abbrev pub parsed_url : Option Text → Result ConfigError Url
  parsed_url none = err missing
  parsed_url (some raw) = elim (urls.parse_url raw) [ none ↦ err bad_url | some url ↦ ok url ]

  abbrev pub with_url : Env → Result ConfigError Url → Result ConfigError PgConn
  with_url env (err e) = err e
  with_url env (ok url) =
      conn_of_url url (decoded (urls.decode url.username)) (password_from_url_or_file url env)
        (before_query (without_slash url.pathname))

  -- `connectionFromUrl`
  unfoldable pub connection_from_url : Env → Result ConfigError PgConn
  unfolding password_from_url_or_file
  connection_from_url env = with_url env (parsed_url (raw_url env))

  -- `connectionFromDbVars() ?? connectionFromUrl()`
  unfoldable pub data_source_conn : Option Text → Env → Result ConfigError PgConn
  unfolding load_dot_env connection_from_db_vars connection_from_url
  data_source_conn file env =
      let loaded = load_dot_env file env in
      or_url (connection_from_db_vars host loaded) (connection_from_url loaded)

  abbrev pub demo_with_url : Result ConfigError Url → Result ConfigError PgConn
  demo_with_url (err e) = err e
  demo_with_url (ok url) =
      conn_of_url url (decoded (urls.decode url.username)) (decoded (urls.decode url.password))
        (without_slash url.pathname)

  -- `pgConfig` of demo-setup.ts, which `connectPg` calls once .env is loaded
  unfoldable pub demo_conn : Option Text → Env → Result ConfigError PgConn
  unfolding load_file connection_from_db_vars
  demo_conn file env =
      let loaded = load_file file env in
      or_url (connection_from_db_vars host loaded) (demo_with_url (parsed_url (raw_url loaded)))
