-- ===== src/Queue/Connection.antt =====
-- `NewRedisBroker` and `command` (backend/internal/queue/redis.go): a connection for each request,
-- with the login before it. The network is a parameter: `receive` gives the bytes that arrive until
-- Redis waits for the next request or the connection ends.
use capstone_project_git_fla.Prelude.{
  Bool, false, not, ◌||◌, Option, none, some, List, [], ◌∷◌, ◌++◌, Bytes, codes, ◌==◌, eqb,
  is_empty, if◌then◌else◌, ℤ, pos, negsuc, leb_ℤ,
}
use capstone_project_git_fla.Text.{trim_prefix}
use capstone_project_git_fla.Decimal.{atoi}
use capstone_project_git_fla.Decimal.Format.{itoa}
use capstone_project_git_fla.Errors.{text, Result, ok, err}
use capstone_project_git_fla.Effect.{Step, ◌>>=◌, ◌>>◌, give}
use capstone_project_git_fla.Queue.Resp.{
  Reply, Reading, got, failed, panicked, stuck, write_command, read,
}

pub record RedisBroker : Type 0 where
  pub address : Bytes
  pub username : Bytes
  pub password : Bytes
  pub stream : Bytes
  pub group : Bytes
  pub dead_letter : Bytes
  pub database : ℤ
  pub max_length : ℤ

-- What `url.Parse` gives for a URL: the fields and calls that are used.
pub record Url : Type 0 where
  pub scheme : Bytes
  pub host : Bytes
  pub hostname : Bytes
  pub port : Bytes
  pub path : Bytes
  pub username : Bytes
  pub password : Bytes

abbrev or_default : Bytes → Bytes → Bytes
or_default s default = if is_empty s then default else s

database_of : Bytes → Option ℤ → Result ℤ
database_of path none = err (text "invalid Redis database in REDIS_URL")
database_of path (some n) =
    if leb_ℤ (pos 0) n then ok n else err (text "invalid Redis database in REDIS_URL")

-- `join_host_port` is net.JoinHostPort.
module _ (parse : Bytes → Result Url) (join_host_port : Bytes → Bytes → Bytes) where
  broker_at : Url → Bytes → Bytes → ℤ → ℤ → RedisBroker
  broker_at url stream group max_length database =
      let name = or_default stream (codes "gitflame:agent:tasks") in
      record {
        address =
            if is_empty url.port then join_host_port url.hostname (codes "6379") else url.host;
        username = url.username;
        password = url.password;
        stream = name;
        group = or_default group (codes "gitflame-agent-workers");
        dead_letter = name ++ codes ":dead-letter";
        database = database;
        max_length = if leb_ℤ (pos 1) max_length then max_length else pos 1000;
      }

  with_database : Url → Bytes → Bytes → ℤ → Result ℤ → Result RedisBroker
  unfolding broker_at
  with_database url stream group max_length (err e) = err e
  with_database url stream group max_length (ok database) =
      ok (broker_at url stream group max_length database)

  with_url : Result Url → Bytes → Bytes → ℤ → Result RedisBroker
  unfolding with_database database_of
  with_url (err e) stream group max_length = err (text "invalid REDIS_URL")
  with_url (ok url) stream group max_length =
      let path = trim_prefix url.path (codes "/") in
      if not (url.scheme == codes "redis") || is_empty url.host
      then err (text "invalid REDIS_URL")
      else with_database url stream group max_length
          (if is_empty path then ok (pos 0) else database_of path (atoi path))

  unfoldable pub new_redis_broker : Bytes → Bytes → Bytes → ℤ → Result RedisBroker
  unfolding with_url
  new_redis_broker raw_url stream group max_length =
      with_url (parse raw_url) stream group max_length

pub record Net (S : Type 0) : Type 0 where
  pub dial : Bytes → Step S (Unit {0})
  pub write : Bytes → Step S (Unit {0})
  pub receive : S → Bytes × S

-- A panic ends the process; it is an error here, as is a reading that has no end.
abbrev pub reply_of : Reading Reply → Result (Reply × Bytes)
reply_of (got reply rest) = ok (reply, rest)
reply_of (failed cause) = err cause
reply_of panicked = err (text "panic: negative length")
reply_of stuck = err (text "stuck")

abbrev pub is_zero : ℤ → Bool
is_zero (pos n) = eqb n 0
is_zero (negsuc n) = false

module _ {S : Type 0} (net : Net S) where
  -- What is buffered already, the bytes that arrive, and one reply read from them.
  unfoldable pub read_reply : Bytes → Step S (Reply × Bytes)
  read_reply buffered s =
      let (arrived, reached) = net.receive s in (reply_of (read (buffered ++ arrived)), reached)

  -- a request, and what is buffered behind its reply
  unfoldable pub exchange : List Bytes → Bytes → Step S (Reply × Bytes)
  exchange arguments buffered = do net.write (write_command arguments); read_reply buffered

  unfoldable pub authenticate : RedisBroker → Bytes → Step S Bytes
  authenticate broker buffered =
      let login =
        if is_empty broker.username
        then codes "AUTH" ∷ broker.password ∷ []
        else codes "AUTH" ∷ broker.username ∷ broker.password ∷ [] in
      if is_empty broker.password
      then give buffered
      else (exchange login buffered >>= λ answer. give answer.1)

  unfoldable pub select_database : RedisBroker → Bytes → Step S Bytes
  select_database broker buffered =
      if is_zero broker.database
      then give buffered
      else (exchange (codes "SELECT" ∷ itoa broker.database ∷ []) buffered >>= λ answer.
          give answer.1)

  unfoldable pub command : RedisBroker → List Bytes → Step S Reply
  command broker arguments = do
    net.dial broker.address
    logged_in ← authenticate broker []
    selected ← select_database broker logged_in
    answer ← exchange arguments selected
    give answer.0
