-- ===== src/Tests/ConfigTests.antt =====
-- A shell that gives the host, the user and the database, and files .env.
use course_project.Base.{◌≡◌, ◌⊎◌, refl, Option, none, some, [], ◌∷◌, ok, Result}
use course_project.Base.Text.{Text, codes, text_eq, trim}
use course_project.Config.{
  Env, UrlHost, missing, parse_line, split_at_eq, split_lines, load_lines, load_file,
  data_source_conn, demo_conn, load_dot_env, connection_from_db_vars, connection_from_url,
}
use course_project.Config.Loaded.{conn-IsShell, conn_with}
use course_project.Tests.Fixtures.{host}
use course_project.Config.Workers.{
  BrokerUrl, required_broker_url, not_set, start_url, start_url-setting, configured_broker_url,
  outbox_workers_enabled,
}

abbrev shell_env : Env
shell_env =
    (codes "DB_HOST", codes "db")
    ∷ (codes "DB_USER", codes "app")
    ∷ (codes "DB_NAME", codes "shop")
    ∷ []

abbrev no_urls : UrlHost
no_urls = record { parse_url = λ t. none; decode = λ t. none; read_file = λ t. none }

line_quoted : parse_line (codes " A = \"b c\" ") ≡ some (codes "A", codes "b c")
unfolding parse_line split_at_eq trim
line_quoted = refl

line_comment : parse_line (codes "# A=b") ≡ none
unfolding parse_line split_at_eq trim
line_comment = refl

line_nameless : parse_line (codes "=b") ≡ none
unfolding parse_line split_at_eq trim
line_nameless = refl

line_two_equals : parse_line (codes "A=b=c") ≡ some (codes "A", codes "b=c")
unfolding parse_line split_at_eq trim
line_two_equals = refl

-- The file does not redefine a variable, not even its own.
not_redefined :
    load_lines (codes "A=1" ∷ codes "B=2" ∷ codes "B=3" ∷ []) ((codes "A", codes "0") ∷ [])
    ≡ (codes "A", codes "0") ∷ (codes "B", codes "2") ∷ []
unfolding load_lines parse_line split_at_eq text_eq trim
not_redefined = refl

nothing_set : data_source_conn host no_urls none [] ≡ Result.err missing
unfolding data_source_conn load_dot_env load_file connection_from_db_vars connection_from_url
    text_eq
nothing_set = refl

conn-IsShell_example :
    (data_source_conn host no_urls (some (codes "DB_PORT=6543")) shell_env
      ≡ ok (conn_with host (codes "db") (codes "app") (codes "shop") none none))
    × (demo_conn host no_urls (some (codes "DB_PORT=6543")) shell_env
        ≡ ok (conn_with host (codes "db") (codes "app") (codes "shop") (some (codes "6543")) none))
unfolding load_lines split_lines parse_line split_at_eq text_eq trim
conn-IsShell_example =
    conn-IsShell host (codes "db") (codes "app") (codes "shop") no_urls (codes "DB_PORT=6543")
      shell_env
      (record {
        host_name = refl;
        user = refl;
        base = refl;
        has_host_name = refl;
        has_user = refl;
        has_base = refl;
      })

abbrev real_url : Text → Option BrokerUrl
real_url t =
    some (record { protocol = codes "amqp:"; username = codes "app"; password = codes "pw" })

abbrev example_url : Text → Option BrokerUrl
example_url t =
    some (record { protocol = codes "amqp:"; username = codes "USER"; password = codes "PASSWORD" })

service_setting :
    (start_url real_url (some (codes "amqp://broker")) [] ≡ none)
    ⊎ (start_url real_url (some (codes "amqp://broker")) [] ≡ some (codes "amqp://broker"))
service_setting = start_url-setting real_url (some (codes "amqp://broker")) []

service_starts : start_url real_url (some (codes "amqp://broker")) [] ≡ some (codes "amqp://broker")
unfolding start_url configured_broker_url outbox_workers_enabled text_eq
service_starts = refl

service_waits :
    start_url real_url (some (codes "amqp://broker")) ((codes "OUTBOX_AUTOSTART", codes "0") ∷ [])
    ≡ none
unfolding start_url configured_broker_url outbox_workers_enabled text_eq
service_waits = refl

example_is_unset : start_url example_url (some (codes "amqp://broker")) [] ≡ none
unfolding start_url configured_broker_url outbox_workers_enabled text_eq
example_is_unset = refl

broker_required : required_broker_url [] ≡ Result.err not_set
unfolding required_broker_url
broker_required = refl
