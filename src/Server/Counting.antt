-- ===== src/Server/Counting.antt =====
-- The server of src/main.rs with the hit counter of src/libs/phpcount.rs as the counter of its pages.
use crackstation_rust.Base.{ℕ, ◌≤◌, Bool, some, Text, ◌≡◌, arith}
use crackstation_rust.Http.{IpAddr, Method}
use crackstation_rust.Middleware.UrlCanonicalization.{Request}
use crackstation_rust.PhpCount.Store.{State, run}
use crackstation_rust.PhpCount.Evolves.{counted}
use crackstation_rust.PhpCount.Monotone.{record_and_get_hits-grows}
use crackstation_rust.PhpCount.{Moment, HitCounts, no_hits, record_and_get_hits}
use crackstation_rust.Server.Outside.{Environment}
use crackstation_rust.Server.Answers.{Effect, untouched, viewed, submitted}
use crackstation_rust.Server.Requests.{serve-Effect}
use crackstation_rust.Server.{serve}

-- What the counter reads of the clock and of the key during one request.
pub record Readings : Type 0 where
  pub at_cleanup : ℕ
  pub at_test : Moment
  pub at_log : Moment

module _ (hmac : Text → Text → Text) (collates : Text → Text → Bool) where
  -- The call of the counter in the state of the tables, with any of its queries to fail.
  pub count_in_tables :
      (Text → ℕ → Text → Text) → Readings → Text → Text → Text → State → HitCounts × State
  count_in_tables unicode_lower r page_id client_ip user_agent s =
      run
        (record_and_get_hits hmac collates unicode_lower r.at_cleanup r.at_test r.at_log page_id
          client_ip user_agent)
        s.faults s.database

  -- `AppState` with its `PhpCountService`.
  pub with_counter :
      {Body : Type 0}
      → Readings
      → Environment Body State HitCounts
      → Environment Body State HitCounts
  with_counter r o = record o {
    no_hits = no_hits;
    record_and_get_hits = count_in_tables o.unicode_lower r;
  }

  Effect-grows :
      {Body : Type 0} (r : Readings) (o : Environment Body State HitCounts) (method : Method)
      (req : Request) (ip : IpAddr) (before after : State) (page : Text) (unique : Bool)
      → Effect (with_counter r o) method req ip before after
      → counted collates page unique before.database.cshits
        ≤ counted collates page unique after.database.cshits
  unfolding with_counter count_in_tables
  Effect-grows r o method req ip before _ page unique untouched = omega arith
  Effect-grows r o method req ip before _ page unique (viewed info get found) =
      record_and_get_hits-grows collates hmac o.unicode_lower r.at_cleanup r.at_test r.at_log _ _ _
        before.faults before.database page unique
  Effect-grows r o method req ip before _ page unique (submitted info p root ours) =
      record_and_get_hits-grows collates hmac o.unicode_lower r.at_cleanup r.at_test r.at_log _ _ _
        before.faults before.database page unique

  -- No request with the address of its peer, whatever it asks for, and whichever queries of the
  -- counter fail, leaves a page with fewer hits, unique or not.
  pub serve-counts_grow :
      {Body : Type 0} (r : Readings) (o : Environment Body State HitCounts) (others : ℕ)
      (method : Method) (req : Request) (ip : IpAddr) (sent : Body) (s : State)
      → req.connection_ip ≡ some ip
      → (page : Text) (unique : Bool)
      → counted collates page unique s.database.cshits
        ≤ counted collates page unique
            (serve (with_counter r o) others method req sent s).1.database.cshits
  serve-counts_grow r o others method req ip sent s connected page unique =
      Effect-grows r o method req ip s _ page unique
        (serve-Effect (with_counter r o) others method req ip sent s connected)
