-- ===== src/Startup/Ready.antt =====
-- What is true of the services once the process has come up.
use mathlib.Core.Path.{subst}
use exploding_user_data_scal.Prelude.{String, ◌≡◌, Option, none, arith}
use exploding_user_data_scal.Values.{GoError, other, ok}
use exploding_user_data_scal.Startup.Clients.{Drivers}
use exploding_user_data_scal.Startup.Process.{running}
use exploding_user_data_scal.Startup.Broker as Broker
use exploding_user_data_scal.Startup.Database as Database
use exploding_user_data_scal.Startup.Redis as Redis
use exploding_user_data_scal.Startup.Dialling.{Dialled, dial_rounds-Dialled}
use exploding_user_data_scal.Startup.{Started, start_up}

module _ (dr : Drivers) where
  -- A ping, or another call of this kind, that has returned no error.
  abbrev pub Answered : (dr.Net → Option GoError × dr.Net) → Type 0
  Answered f = (n : dr.Net) × ((f n).0 ≡ none)

  connect-Answered :
      (host port : String) (n : dr.Net) (p : dr.Pool)
      → (Database.connect dr host port n).0 ≡ running p
      → Answered (dr.ping_pool p)
  unfolding Database.connect
  connect-Answered host port n p h = (
    dr.set_limits p (Database.pool_settings dr) (dr.sql_open (Database.dsn dr host port) n).1,
    ground arith,
  )

  init_database-Answered :
      (n : dr.Net) (d : Database.Database dr)
      → (Database.init dr n).0 ≡ running d
      → Answered (dr.ping_pool d.write) × Answered (dr.ping_pool d.read)
  unfolding Database.init
  init_database-Answered n d h =
      let host = Database.setting dr "DB_WRITE_HOST" in
      let port = Database.setting dr "DB_WRITE_PORT" in
      let host' = Database.setting dr "DB_READ_HOST" in
      let port' = Database.setting dr "DB_READ_PORT" in
      let n1 = (Database.connect dr host port n).1 in
      let first : (Database.connect dr host port n).0 ≡ running d.write = ground arith in
      let second : (Database.connect dr host' port' n1).0 ≡ running d.read = ground arith in
      (connect-Answered host port n d.write first, connect-Answered host' port' n1 d.read second)

  init_redis-Answered :
      (n : dr.Net) (c : dr.Client) → (Redis.init dr n).0 ≡ running c → Answered (dr.ping_client c)
  unfolding Redis.init
  init_redis-Answered n c h = ((dr.new_client (Redis.options dr) n).1, ground arith)

  -- A broker whose connection was made in at most five tries, with its channel and its queue.
  abbrev pub IsReady : Broker.Broker dr → Type 0
  IsReady b =
      ((n : dr.Net) × (n' : dr.Net) × Dialled dr (Broker.broker_url dr) 5 n (ok b.conn, n'))
      × ((n : dr.Net) × ((dr.open_channel b.conn n).0 ≡ ok b.channel))
      × Answered (dr.queue_declare b.channel (Broker.declaration dr))

  init_broker-IsReady :
      (n : dr.Net) (b : Broker.Broker dr) → (Broker.init dr n).0 ≡ running b → IsReady b
  unfolding Broker.init
  init_broker-IsReady n b h =
      let n1 = (Broker.dial_five dr n).1 in
      let n2 = (dr.open_channel b.conn n1).1 in
      let dialled : (Broker.dial_five dr n).0 ≡ ok b.conn = ground arith in
      let opened : (dr.open_channel b.conn n1).0 ≡ ok b.channel = ground arith in
      let declared : (dr.queue_declare b.channel (Broker.declaration dr) n2).0 ≡ none =
        ground arith in
      (
        (
          n,
          n1,
          subst (λ o. Dialled dr (Broker.broker_url dr) 5 n (o, n1)) dialled
              (dial_rounds-Dialled dr (Broker.broker_url dr) 5 (other "") n),
        ),
        (n1, opened),
        (n2, declared),
      )

  -- Once `main` serves requests, the pings of the primary, of the replica and of Redis have been
  -- answered, RabbitMQ has been reached in at most five tries and has declared the queue, and the
  -- consumer's call has been accepted.
  pub start_up-Answered :
      (n : dr.Net) (st : Started dr)
      → (start_up dr n).0 ≡ running st
      → Answered (dr.ping_pool st.pools.write)
        × Answered (dr.ping_pool st.pools.read)
        × Answered (dr.ping_client st.client)
        × IsReady st.broker
        × Answered (dr.consume st.broker.channel (Broker.consumption dr))
  unfolding start_up Broker.start_consumer
  start_up-Answered n st h =
      let n1 = (Database.init dr n).1 in
      let n2 = (Redis.init dr n1).1 in
      let n3 = (Broker.init dr n2).1 in
      let pools : (Database.init dr n).0 ≡ running st.pools = ground arith in
      let client : (Redis.init dr n1).0 ≡ running st.client = ground arith in
      let broker : (Broker.init dr n2).0 ≡ running st.broker = ground arith in
      let reads : (dr.consume st.broker.channel (Broker.consumption dr) n3).0 ≡ none =
        ground arith in
      let (first, second) = init_database-Answered n st.pools pools in
      (
        first,
        second,
        init_redis-Answered n1 st.client client,
        init_broker-IsReady n2 st.broker broker,
        (n3, reads),
      )
