-- ===== src/Limiter/Ip/Tests.antt =====
-- Permits on small inputs: one address asks for a connection, and drops it.
use kodiak.Base.{◌≡◌, refl, true, false, ◌^◌}
use kodiak.Limiter.{RateLimiterProps}
use kodiak.Limiter.Ip.{
  IpAddr, v4, from, same_ip, connection_permit, should_limit_rate_inner, should_limit_rate,
}
use kodiak.Limiter.Ip.Counts.{counts}
use kodiak.Limiter.Ip.Permits.{
  Held, Reachable, started, stepped, connected, add_one, Reachable-Counted,
}

abbrev bandwidth : RateLimiterProps
bandwidth = record { rate_limit = 1; burst = 100000 }

abbrev home : IpAddr
home = v4 1

abbrev idle : Held
idle = record { limiter = from bandwidth 50; connections = λ ip. 0; active = λ ip. 0 }

abbrev one_connection : Held
one_connection = record {
  limiter = (connection_permit (2 ^ 63) idle.limiter home 60 false).0;
  connections = add_one idle.connections home;
  active = idle.active;
}

granted : (connection_permit (2 ^ 63) idle.limiter home 60 false).1 ≡ true
unfolding connection_permit should_limit_rate_inner should_limit_rate
    kodiak.Limiter.should_limit_rate from same_ip
granted = refl

reached : Reachable (2 ^ 63) bandwidth one_connection
reached = stepped idle one_connection (started 50) (connected idle home 60 false granted)

Reachable-Counted_example :
    counts (one_connection.limiter.usage home)
    ≡ (one_connection.connections home, one_connection.active home)
Reachable-Counted_example = Reachable-Counted (2 ^ 63) bandwidth one_connection reached home
